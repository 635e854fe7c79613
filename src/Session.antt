-- ===== src/Session.antt =====
-- oak_crypto/src/noise_handshake: the Noise handshake, and the encryption of messages after it.
pub mod Run
pub mod Crypto
pub mod Noise
pub mod Crypter
pub mod Handshake
pub mod NoiseLaws
pub mod CrypterLaws
pub mod Agree
pub mod Talk
pub mod Fresh
pub mod Tests
