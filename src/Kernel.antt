-- ===== src/Kernel.antt =====
-- oak_restricted_kernel: the allocator of physical frames.
pub mod Bits
pub mod Frames
pub mod FrameLaws
pub mod Words
pub mod Reachable
pub mod Contiguous
pub mod Largest
pub mod LargestLaws
pub mod LargestAvailable
pub mod Physical
pub mod PhysicalLaws
pub mod PhysicalTests
pub mod Tests
