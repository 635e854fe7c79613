-- ===== src/Channel.antt =====
-- oak_channel: the transport protocol between the untrusted launcher and the enclave.
pub mod Message
pub mod Transport
pub mod Frame
pub mod Wire
pub mod FrameLaws
pub mod Chunks
pub mod MessageLaws
pub mod RoundTrip
pub mod Rejects
pub mod Termination
pub mod Client
pub mod BasicFramed
pub mod BasicFramedLaws
pub mod Ends
pub mod Memory
pub mod Tests
pub mod Invocation
