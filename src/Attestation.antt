-- ===== src/Attestation.antt =====
-- oak_attestation_verification: the verification of remote attestation evidence.
pub mod Report
pub mod Digest
pub mod Values
pub mod Expectations
pub mod Evidence
pub mod Externals
pub mod Util
pub mod Claims
pub mod Rekor
pub mod Endorsement
pub mod Amd
pub mod Expect
pub mod Compare
pub mod CompareChain
pub mod Cert
pub mod Extract
pub mod ExtractEvidence
pub mod Verifier
pub mod DigestTally
pub mod DigestLaws
pub mod CompareLaws
pub mod LayerLaws
pub mod RootLaws
pub mod KindLaws
pub mod PlatformLaws
pub mod VerifyLaws
pub mod Acceptance
pub mod EndorsementLaws
pub mod ExpectLaws
pub mod Toy
pub mod Sample
pub mod Tests
pub mod LawTests
