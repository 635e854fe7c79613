-- ===== src/Attestation/Tests.antt =====
-- The theorems about the verifier on the sample chain.
use not_an_oak_fork.Base.{
  pos, ◌≡◌, refl, ap, none, some, [], ◌∷◌, ok, replicate, with_context, >>=-ok, bytes_eq, from_utf8,
  trim, strip_suffix, remove_char, decimal, contains_char,
}
use not_an_oak_fork.Attestation.Digest.{is_raw_digest_match, hex_to_raw_digest}
use not_an_oak_fork.Attestation.Evidence.{ExtractedEvidence, sev_snp}
use not_an_oak_fork.Attestation.Compare.{
  compare_measurement_digest, compare_cmd_line, verify_amd_sev_attestation_report,
  compare_kernel_layer_measurement_digests, compare_root_layer_measurement_digests, compare_text,
  compare_sev_snp,
}
use not_an_oak_fork.Attestation.CompareChain.{
  compare_expected_values, compare_oak_restricted_kernel_measurement_digests,
  compare_application_layer_measurement_digests,
}
use not_an_oak_fork.Attestation.LayerLaws.{KernelAllowed, compare_kernel_layer-Allowed}
use not_an_oak_fork.Attestation.KindLaws.{ChainAllowed, compare_expected_values-ChainAllowed}
use not_an_oak_fork.Attestation.RootLaws.{RootAllowed, compare_root_layer-Allowed}
use not_an_oak_fork.Attestation.PlatformLaws.{Genuine, verify_sev_snp_signature-Genuine}
use not_an_oak_fork.Attestation.VerifyLaws.{
  Chain, Attested, verify_layers-Chain, verify_dice_chain-Attested,
}
use not_an_oak_fork.Attestation.Acceptance.{
  Accepted, verify-Accepted, to_attestation_results-success,
}
use not_an_oak_fork.Attestation.Claims.{
  validate_endorsement, parse_endorsement_statement, get_digest, verify_validity_duration,
}
use not_an_oak_fork.Attestation.Rekor.{verify_rekor_log_entry}
use not_an_oak_fork.Attestation.Endorsement.{verify_binary_endorsement}
use not_an_oak_fork.Attestation.Expect.{
  into_expected_digests, get_expected_measurement_digest, get_expected_values,
  get_oak_restricted_kernel_expected_values, get_kernel_layer_expected_values,
  get_root_layer_expected_values, get_application_layer_expected_values, get_text_expected_values,
  get_kernel_expected_values, get_stage0_expected_values,
}
use not_an_oak_fork.Attestation.Verifier.{
  verify, verify_dice_chain, verify_layers, verify_sev_snp_signature,
  verify_root_attestation_signature, to_attestation_results, success,
}
use not_an_oak_fork.Attestation.Report.{validate, has_debug_flag}
use not_an_oak_fork.Attestation.Amd.{verify_attestation_report_signature, verify_cert_signature}
use not_an_oak_fork.Attestation.Cert.{
  cose_key_to_verifying_key, get_public_key_from_claims_set, cose_key_to_hpke_public_key,
  find_claim_map,
}
use not_an_oak_fork.Attestation.Extract.{
  extract_container_layer_data, extract_application_layer_data, extract_layer_data, extract_value,
  value_to_raw_digest, extract_kernel_values, extract_system_layer_data,
}
use not_an_oak_fork.Attestation.ExtractEvidence.{
  extract_evidence, extract_application_key_values, extract_evidence_values, extract_root_values,
}
use not_an_oak_fork.Attestation.Util.{verify_signature_raw, convert_pem_to_raw, equal_keys}
use not_an_oak_fork.Attestation.Toy.{toy, toy-IsHex}
use not_an_oak_fork.Attestation.Sample.{
  root, evidence, endorsements, reference, extracted, amd_report, kernel_data, amd_expected,
  kernel_expected, expected,
}

genuine : verify_root_attestation_signature toy root [] ≡ ok tt
unfolding verify_root_attestation_signature validate verify_attestation_report_signature
    verify_cert_signature bytes_eq
genuine = refl

attested : verify_dice_chain toy evidence ≡ ok extracted
unfolding verify_dice_chain extract_evidence cose_key_to_verifying_key
    extract_application_key_values extract_evidence_values get_public_key_from_claims_set
    cose_key_to_hpke_public_key extract_container_layer_data extract_application_layer_data
    extract_root_values extract_layer_data find_claim_map extract_value value_to_raw_digest
    extract_kernel_values extract_system_layer_data has_debug_flag validate bytes_eq
attested = refl

expected_values : get_expected_values toy (pos 5) (some endorsements) (some reference) ≡ ok expected
unfolding get_expected_values get_oak_restricted_kernel_expected_values
    get_kernel_layer_expected_values get_root_layer_expected_values
    get_application_layer_expected_values get_text_expected_values get_expected_measurement_digest
    get_kernel_expected_values get_stage0_expected_values from_utf8 hex_to_raw_digest
    parse_endorsement_statement get_digest into_expected_digests verify_binary_endorsement
    verify_rekor_log_entry verify_signature_raw bytes_eq validate_endorsement
    verify_validity_duration convert_pem_to_raw equal_keys trim strip_suffix remove_char decimal
    contains_char
expected_values = refl

allowed : compare_expected_values toy extracted (some expected) ≡ ok tt
unfolding compare_expected_values compare_oak_restricted_kernel_measurement_digests
    compare_root_layer_measurement_digests compare_kernel_layer_measurement_digests
    compare_application_layer_measurement_digests compare_cmd_line compare_measurement_digest
    compare_sev_snp verify_amd_sev_attestation_report compare_text is_raw_digest_match bytes_eq
allowed = refl

accepted : verify toy (pos 5) evidence (some endorsements) (some reference) ≡ ok extracted
unfolding verify
accepted = >>=-ok _ _ genuine (
    >>=-ok _ _ (ap (with_context "invalid DICE chain") attested)
      (>>=-ok _ _ expected_values (>>=-ok _ _ allowed refl)))

verify-Accepted_example :
    Accepted toy (pos 5) evidence (some endorsements) (some reference) extracted
verify-Accepted_example =
    (verify-Accepted toy toy-IsHex (pos 5) evidence (some endorsements) (some reference)
        extracted).0
      accepted

to_attestation_results-success_example :
    (v : ExtractedEvidence) × (ok extracted ≡ ok v)
    × (some extracted ≡ some v)
    × ((100 ∷ []) ≡ v.encryption_public_key)
    × (replicate 64 4 ≡ v.signing_public_key)
unfolding to_attestation_results
to_attestation_results-success_example =
    (to_attestation_results-success (ok extracted)
        (record {
          status = success;
          reason = [];
          encryption_public_key = 100 ∷ [];
          signing_public_key = replicate 64 4;
          extracted_evidence = some extracted;
        })
        refl).0
      refl

verify_dice_chain-Attested_example : Attested toy evidence extracted
verify_dice_chain-Attested_example = (verify_dice_chain-Attested toy evidence extracted).0 attested

verify_layers-Chain_example : Chain toy (replicate 64 1) evidence.layers (replicate 64 2)
unfolding verify_layers bytes_eq get_public_key_from_claims_set cose_key_to_verifying_key
verify_layers-Chain_example =
    (verify_layers-Chain toy (replicate 64 1) evidence.layers (replicate 64 2)).0 refl

verify_sev_snp_signature-Genuine_example : Genuine toy root []
unfolding verify_sev_snp_signature validate verify_attestation_report_signature
    verify_cert_signature bytes_eq
verify_sev_snp_signature-Genuine_example = (verify_sev_snp_signature-Genuine toy root []).0 refl

compare_expected_values-ChainAllowed_example :
    ChainAllowed toy extracted.evidence_values (some expected)
compare_expected_values-ChainAllowed_example =
    (compare_expected_values-ChainAllowed toy toy-IsHex extracted (some expected)).0 allowed

compare_root_layer-Allowed_example :
    RootAllowed
      (record { report = some (sev_snp amd_report) })
      (record { amd_sev = some amd_expected; intel_tdx = none; insecure = none })
unfolding compare_root_layer_measurement_digests compare_sev_snp compare_measurement_digest
    verify_amd_sev_attestation_report is_raw_digest_match bytes_eq
compare_root_layer-Allowed_example =
    (compare_root_layer-Allowed toy toy-IsHex (record { report = some (sev_snp amd_report) })
        (record { amd_sev = some amd_expected; intel_tdx = none; insecure = none })).0
      refl

compare_kernel_layer-Allowed_example :
    KernelAllowed toy kernel_data kernel_expected.kernel kernel_expected
unfolding compare_kernel_layer_measurement_digests compare_cmd_line compare_text
    compare_measurement_digest is_raw_digest_match bytes_eq
compare_kernel_layer-Allowed_example =
    (compare_kernel_layer-Allowed toy toy-IsHex kernel_data kernel_expected).0 refl
