-- ===== src/Attestation/Expect.antt =====
-- The functions of oak_attestation_verification/src/verifier.rs that compute expected values from
-- endorsements and reference values.
pub mod Digests
pub mod Layers
unfoldable pub use Digests.*
unfoldable pub use Layers.*
