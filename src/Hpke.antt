-- ===== src/Hpke.antt =====
-- oak_crypto/src: encrypted requests and responses by hybrid public key encryption.
pub mod Contexts
pub mod Encryptor
pub mod Exchange
pub mod Tests
