-- ===== src/Attestation/LawTests.antt =====
-- The theorems about single comparisons and endorsements, on small inputs.
use not_an_oak_fork.Base.{
  pos, ◌≡◌, refl, true, false, ◌⊎◌, none, some, [], ◌∷◌, codes, bytes_eq, from_utf8, trim,
  strip_suffix, remove_char, decimal, contains_char,
}
use not_an_oak_fork.Attestation.Digest.{
  HexDigest, empty_hex, get_hex_digest_match, is_raw_digest_match, hex_to_raw_digest, contradictory,
}
use not_an_oak_fork.Attestation.DigestTally.{AnyAgree, AnyClash, hex_fields, raw_fields}
use not_an_oak_fork.Attestation.DigestLaws.{
  Verdict, get_hex_digest_match-Verdict, is_raw_digest_match-ok,
}
use not_an_oak_fork.Attestation.Values.{
  empty, BinaryReference, ContainerLayerEndorsements, ContainerLayerReferenceValues,
}
use not_an_oak_fork.Attestation.Expectations.{Expected}
use not_an_oak_fork.Attestation.Compare.{
  compare_measurement_digest, compare_cmd_line, compare_text, verify_amd_sev_attestation_report,
}
use not_an_oak_fork.Attestation.CompareLaws.{
  Allows, AllowsText, AtLeast, compare_measurement_digest-Allows, compare_cmd_line-AllowsText,
  verify_amd_sev_attestation_report-ok, text_of,
}
use not_an_oak_fork.Attestation.Claims.{
  validate_endorsement, parse_endorsement_statement, get_digest, verify_validity_duration,
}
use not_an_oak_fork.Attestation.Util.{verify_signature_raw, convert_pem_to_raw, equal_keys}
use not_an_oak_fork.Attestation.Rekor.{verify_rekor_log_entry}
use not_an_oak_fork.Attestation.Endorsement.{verify_binary_endorsement}
use not_an_oak_fork.Attestation.EndorsementLaws.{
  WellFormed, Endorsed, validate_endorsement-WellFormed, verify_binary_endorsement-Endorsed,
}
use not_an_oak_fork.Attestation.Expect.{
  into_expected_digests, get_expected_measurement_digest, get_container_layer_expected_values,
}
use not_an_oak_fork.Attestation.ExpectLaws.{
  EndorsedDigest, LogHolds, get_expected_measurement_digest-endorsed,
  get_container_layer_expected_values_configuration, verify_rekor_log_entry-LogHolds,
}
use not_an_oak_fork.Attestation.Toy.{toy, toy-IsHex, statement}
use not_an_oak_fork.Attestation.Sample.{
  endorsement, keys, digest, amd_report, amd_expected, cmd_line_expected,
}

-- one field agrees and another clashes
abbrev measured_hex : HexDigest
measured_hex = record empty_hex { sha1 = codes "aa"; sha2_256 = codes "bb" }

abbrev other_hex : HexDigest
other_hex = record empty_hex { sha1 = codes "aa"; sha2_256 = codes "cc" }

get_hex_digest_match-Verdict_example :
    Verdict contradictory (hex_fields measured_hex) (hex_fields other_hex)
unfolding get_hex_digest_match bytes_eq
get_hex_digest_match-Verdict_example = get_hex_digest_match-Verdict measured_hex other_hex

is_raw_digest_match-ok_example :
    AnyAgree (raw_fields (digest 5)) (raw_fields (digest 5))
    × ¬ AnyClash (raw_fields (digest 5)) (raw_fields (digest 5))
unfolding is_raw_digest_match bytes_eq
is_raw_digest_match-ok_example =
    (is_raw_digest_match-ok toy.hex_encode toy-IsHex.injective toy-IsHex.encode-nil (digest 5)
        (digest 5)).0
      refl

compare_measurement_digest-Allows_example :
    Allows (some (Expected.digests (digest 1 ∷ digest 5 ∷ []))) (digest 5)
unfolding compare_measurement_digest is_raw_digest_match bytes_eq
compare_measurement_digest-Allows_example =
    (compare_measurement_digest-Allows toy toy-IsHex (digest 5)
        (record { type = some (Expected.digests (digest 1 ∷ digest 5 ∷ [])) })).0
      refl

verify_amd_sev_attestation_report-ok_example :
    (amd_report.vmpl ≡ 0)
    × ((false ≡ true) ⊎ (false ≡ false))
    × AtLeast amd_expected.min_tcb_version amd_report.reported_tcb
unfolding verify_amd_sev_attestation_report
verify_amd_sev_attestation_report-ok_example =
    (verify_amd_sev_attestation_report-ok amd_report amd_expected).0 refl

compare_cmd_line-AllowsText_example :
    AllowsText toy (text_of cmd_line_expected) (some (codes "quiet"))
unfolding compare_cmd_line compare_text bytes_eq
compare_cmd_line-AllowsText_example =
    (compare_cmd_line-AllowsText toy (some (codes "quiet")) cmd_line_expected).0 refl

validate_endorsement-WellFormed_example : WellFormed statement
unfolding validate_endorsement bytes_eq
validate_endorsement-WellFormed_example = (validate_endorsement-WellFormed statement).0 refl

verify_binary_endorsement-Endorsed_example :
    Endorsed toy (pos 5) (9 ∷ []) (45 ∷ []) (8 ∷ []) (77 ∷ []) (88 ∷ [])
unfolding verify_binary_endorsement parse_endorsement_statement validate_endorsement
    verify_validity_duration verify_rekor_log_entry verify_signature_raw convert_pem_to_raw
    equal_keys bytes_eq from_utf8 trim strip_suffix remove_char decimal contains_char
verify_binary_endorsement-Endorsed_example =
    (verify_binary_endorsement-Endorsed toy (pos 5) (9 ∷ []) (45 ∷ []) (8 ∷ []) (77 ∷ [])
        (88 ∷ [])).0
      refl

get_expected_measurement_digest-endorsed_example :
    EndorsedDigest toy (pos 5) (some endorsement) keys (into_expected_digests (digest 5 ∷ []))
unfolding get_expected_measurement_digest verify_binary_endorsement parse_endorsement_statement
    validate_endorsement verify_validity_duration verify_rekor_log_entry verify_signature_raw
    convert_pem_to_raw equal_keys bytes_eq from_utf8 trim strip_suffix remove_char decimal
    contains_char get_digest hex_to_raw_digest into_expected_digests
get_expected_measurement_digest-endorsed_example =
    (get_expected_measurement_digest-endorsed toy (pos 5) (some endorsement) keys
        (into_expected_digests (digest 5 ∷ []))).0
      refl

verify_rekor_log_entry-LogHolds_example : LogHolds toy (8 ∷ []) (88 ∷ []) (9 ∷ [])
unfolding verify_rekor_log_entry verify_signature_raw convert_pem_to_raw bytes_eq from_utf8 trim
    strip_suffix remove_char decimal contains_char
verify_rekor_log_entry-LogHolds_example =
    verify_rekor_log_entry-LogHolds toy (8 ∷ []) (88 ∷ []) (9 ∷ []) refl

abbrev unendorsed : ContainerLayerEndorsements
unendorsed = record { binary = some endorsement; configuration = none }

abbrev container_reference : ContainerLayerReferenceValues
container_reference = record {
  binary = some (record { type = some (BinaryReference.skip empty) });
  configuration = some (record { type = some (BinaryReference.endorsement keys) });
}

-- no endorsement of the configuration, or a wrong one
get_container_layer_expected_values_configuration_example :
    get_container_layer_expected_values toy (pos 5) (some unendorsed) container_reference
    ≡ get_container_layer_expected_values toy
        (pos 5)
        (some
          (record unendorsed { configuration = some (record endorsement { endorsement = [] }) }))
        container_reference
get_container_layer_expected_values_configuration_example =
    get_container_layer_expected_values_configuration toy (pos 5) unendorsed
      (record unendorsed { configuration = some (record endorsement { endorsement = [] }) })
      container_reference refl
