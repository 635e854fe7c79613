-- ===== src/Attestation/Verifier.antt =====
-- The entry points of oak_attestation_verification/src/verifier.rs: `verify`, the checks of the
-- root signature and of the DICE chain, and the results that are sent to clients.
use not_an_oak_fork.Base.{
  ℕ, ℤ, Bool, ◌&&◌, Option, none, some, List, [], ◌∷◌, Result, ok, err, bail, panic, Error, context,
  with_context, ensure, ◌>>=◌, ◌>>◌, ltb, bytes_eq, length, take,
}
use not_an_oak_fork.Attestation.Report.{validate}
use not_an_oak_fork.Attestation.Values.{Endorsements, ReferenceValues, RootLayerEndorsements}
use not_an_oak_fork.Attestation.Evidence.{
  TeePlatform, unspecified, amd_sev_snp, intel_tdx, no_tee, RootLayerEvidence, LayerEvidence,
  ApplicationKeys, Evidence, ExtractedEvidence,
}
use not_an_oak_fork.Attestation.Externals.{Externals, CoseSign1}
use not_an_oak_fork.Attestation.Amd.{verify_cert_signature, verify_attestation_report_signature}
use not_an_oak_fork.Attestation.Cert.{cose_key_to_verifying_key, get_public_key_from_claims_set}
use not_an_oak_fork.Attestation.Expect.{get_expected_values}
use not_an_oak_fork.Attestation.CompareChain.{compare_expected_values}
use not_an_oak_fork.Attestation.ExtractEvidence.{extract_evidence}

-- the endorsements of the root layer, whatever the kind of chain
unfoldable pub root_endorsements : Endorsements → Option RootLayerEndorsements
root_endorsements (Endorsements.oak_restricted_kernel e) = e.root_layer
root_endorsements (Endorsements.oak_containers e) = e.root_layer
root_endorsements (Endorsements.cb e) = e.root_layer

module _ (x : Externals) where
  open x use {
    VerifyingKey, signature_from_slice, verifies, cose_sign1_from_slice, claims_from_slice,
    cose_key_from_slice,
  }

  -- the root key is the digest that the report's custom data starts with
  unfoldable pub is_bound : List ℕ → List ℕ → Bool
  is_bound eca_public_key report_data =
      ltb (length (x.sha2_256 eca_public_key)) (length report_data)
      && bytes_eq (x.sha2_256 eca_public_key)
          (take (length (x.sha2_256 eca_public_key)) report_data)

  unfoldable pub verify_sev_snp_signature : RootLayerEvidence → List ℕ → Result (Unit {0})
  unfolding is_bound
  verify_sev_snp_signature root serialized_certificate = do
    vcek ← context "could not parse VCEK cert" (x.cert_from_der serialized_certificate)
    ask ← context "could not parse ASK cert" x.ask_milan
    verify_cert_signature x ask vcek
    report ←
        context "invalid AMD SEV-SNP attestation report"
          (x.report_from_bytes root.remote_attestation_report)
    validate report
    verify_attestation_report_signature x vcek report
    ensure (is_bound root.eca_public_key report.report_body.report_data)
        "The root layer's ECA public key is not bound to the attestation report"

  unfoldable pub verify_platform : TeePlatform → RootLayerEvidence → List ℕ → Result (Unit {0})
  unfolding verify_sev_snp_signature
  verify_platform unspecified root cert = bail "unspecified TEE platform"
  verify_platform amd_sev_snp root cert = verify_sev_snp_signature root cert
  verify_platform intel_tdx root cert = bail "not supported"
  verify_platform no_tee root cert = ok tt

  -- The time is not used.
  unfoldable pub verify_root_attestation_signature : RootLayerEvidence → List ℕ → Result (Unit {0})
  unfolding verify_platform
  verify_root_attestation_signature root cert = verify_platform root.platform root cert

  -- `CoseSign1::verify_signature` with the closure that the verifier passes
  unfoldable pub verify_cose : VerifyingKey → CoseSign1 → Result (Unit {0})
  verify_cose key cert = do
    sig ← context "invalid signature" (signature_from_slice cert.signature)
    ensure (verifies key cert.signed sig) "signature error"

  -- one round of the fold over the layers: from the issuer's key to the certified key
  unfoldable pub verify_layer : VerifyingKey → LayerEvidence → Result VerifyingKey
  unfolding verify_cose
  verify_layer key layer = do
    cert ← context "could not parse certificate" (cose_sign1_from_slice layer.eca_certificate)
    verify_cose key cert
    payload ← context "no cert payload" cert.payload
    claims ← context "could not parse claims set" (claims_from_slice payload)
    cose_key ← get_public_key_from_claims_set x claims
    cose_key_to_verifying_key x cose_key

  unfoldable pub verify_layers : VerifyingKey → List LayerEvidence → Result VerifyingKey
  unfolding verify_layer
  verify_layers key [] = ok key
  verify_layers key (layer ∷ layers) = verify_layer key layer >>= λ next. verify_layers next layers

  unfoldable pub root_layer_verifying_key : RootLayerEvidence → Result VerifyingKey
  root_layer_verifying_key root = do
    cose_key ←
        context "couldn't deserialize root layer public key"
          (cose_key_from_slice root.eca_public_key)
    cose_key_to_verifying_key x cose_key

  unfoldable pub verify_application_keys : VerifyingKey → ApplicationKeys → Result (Unit {0})
  unfolding verify_cose
  verify_application_keys key keys = do
    encryption_cert ←
        context "could not parse encryption certificate"
          (cose_sign1_from_slice keys.encryption_public_key_certificate)
    verify_cose key encryption_cert
    signing_cert ←
        context "could not parse encryption certificate"
          (cose_sign1_from_slice keys.signing_public_key_certificate)
    verify_cose key signing_cert

  unfoldable pub verify_dice_chain : Evidence → Result ExtractedEvidence
  unfolding root_layer_verifying_key verify_layers verify_application_keys
  verify_dice_chain evidence = do
    root ← context "no root layer evidence" evidence.root_layer
    root_key ← root_layer_verifying_key root
    last_key ← verify_layers root_key evidence.layers
    keys ← context "no application keys in evidence" evidence.application_keys
    verify_application_keys last_key keys
    extract_evidence x evidence

  unfoldable pub verify :
      ℤ → Evidence → Option Endorsements → Option ReferenceValues → Result ExtractedEvidence
  unfolding root_endorsements
  verify now evidence endorsements reference_values = do
    chain ← context "no endorsements" endorsements
    root_ends ← context "no root layer endorsements" (root_endorsements chain)
    root_layer ← context "no root layer evidence" evidence.root_layer
    verify_root_attestation_signature root_layer root_ends.tee_certificate
    extracted ← with_context "invalid DICE chain" (verify_dice_chain evidence)
    expected ← get_expected_values x now endorsements reference_values
    compare_expected_values x extracted (some expected)
    ok extracted

pub data Status : Type 0 where
  success generic_failure : Status

pub record AttestationResults : Type 0 where
  pub status : Status
  pub reason : Error
  pub encryption_public_key : List ℕ
  pub signing_public_key : List ℕ
  pub extracted_evidence : Option ExtractedEvidence

-- A panic leaves no result to convert.
unfoldable pub to_attestation_results : Result ExtractedEvidence → Option AttestationResults
to_attestation_results (ok e) = some (record {
  status = success;
  reason = [];
  encryption_public_key = e.encryption_public_key;
  signing_public_key = e.signing_public_key;
  extracted_evidence = some e;
})
to_attestation_results (err e) = some (record {
  status = generic_failure;
  reason = e;
  encryption_public_key = [];
  signing_public_key = [];
  extracted_evidence = none;
})
to_attestation_results panic = none
