-- ===== src/Attestation/Compare.antt =====
-- The functions of oak_attestation_verification/src/verifier.rs that compare the values of the
-- evidence with the expected values. `Regex` is that of the feature `regex`.
use not_an_oak_fork.Base.{
  ℕ, Bool, false, ◌&&◌, ◌||◌, not, Option, none, some, List, [], ◌∷◌, Result, ok, bail, context,
  with_context, ensure, is_ok, ◌>>=◌, ◌>>◌, ltb, leb, ◌==◌, if◌then◌else◌, bytes_eq, length,
}
use not_an_oak_fork.Attestation.Digest.{RawDigest, empty_raw, is_raw_digest_match}
use not_an_oak_fork.Attestation.Values.{Empty, TcbVersion}
use not_an_oak_fork.Attestation.Expectations.{
  Expected, ExpectedDigests, ExpectedText, TextExpectedValue, AmdSevExpectedValues,
  RootLayerExpectedValues, KernelLayerExpectedValues,
}
use not_an_oak_fork.Attestation.Evidence.{
  AmdAttestationReport, Report, sev_snp, tdx, fake, RootLayerData, KernelLayerData,
}
use not_an_oak_fork.Attestation.Externals.{Externals}

unfoldable pub ensure_tcb : Option TcbVersion → Option TcbVersion → Result (Unit {0})
ensure_tcb none reported = bail "no min TCB version reference value"
ensure_tcb (some m) none = bail "no reported TCB version in the attestation report"
ensure_tcb (some m) (some r) = do
  ensure (leb m.boot_loader r.boot_loader) "unsupported boot loader version in the reported TCB"
  ensure (leb m.tee r.tee) "unsupported tee version in the reported TCB"
  ensure (leb m.snp r.snp) "unsupported snp version in the reported TCB"
  ensure (leb m.microcode r.microcode) "unsupported microcode version in the reported TCB"

unfoldable pub verify_amd_sev_attestation_report :
    AmdAttestationReport → AmdSevExpectedValues → Result (Unit {0})
unfolding ensure_tcb
verify_amd_sev_attestation_report r e = do
  ensure (r.vmpl == 0) "attestation report was not generated from VMPL 0"
  ensure (not (not e.allow_debug && r.debug)) "debug mode not allowed"
  ensure_tcb e.min_tcb_version r.reported_tcb

unfoldable pub verify_intel_tdx_attestation_report : List ℕ → Empty → Result (Unit {0})
verify_intel_tdx_attestation_report r e = bail "needs implementation"

unfoldable pub verify_insecure : Empty → Result (Unit {0})
verify_insecure e = ok tt

unfoldable pub has_literal : List ℕ → List (List ℕ) → Bool
has_literal actual [] = false
has_literal actual (l ∷ ls) = bytes_eq l actual || has_literal actual ls

module _ (x : Externals) where
  unfoldable pub find_match : RawDigest → List RawDigest → Bool
  find_match measurement [] = false
  find_match measurement (e ∷ es) =
      is_ok (is_raw_digest_match x.hex_encode measurement e) || find_match measurement es

  unfoldable pub compare_with : RawDigest → Option Expected → Result (Unit {0})
  unfolding find_match
  compare_with measurement none = bail "empty expected value"
  compare_with measurement (some (Expected.skipped s)) = ok tt
  compare_with measurement (some (Expected.digests ds)) =
      ensure (find_match measurement ds) "measurement digest does not match any reference values"

  unfoldable pub compare_measurement_digest : RawDigest → ExpectedDigests → Result (Unit {0})
  unfolding compare_with
  compare_measurement_digest measurement expected = compare_with measurement expected.type

  unfoldable pub verify_regex : List ℕ → List ℕ → Result (Unit {0})
  verify_regex actual regex = do
    is_match ← context "couldn't parse regex in the reference value" (x.compile_regex regex)
    ensure (is_match actual) "value doesn't match the reference value regex"

  -- `compare_text_value`, of the expected value's `oneof`
  unfoldable pub compare_text : List ℕ → Option ExpectedText → Result (Unit {0})
  unfolding verify_regex has_literal
  compare_text actual none = bail "missing skip or value in the text expected value"
  compare_text actual (some (ExpectedText.skipped s)) = ok tt
  compare_text actual (some (ExpectedText.regex r)) =
      with_context "regex from endorsement does not match" (verify_regex actual r)
  compare_text actual (some (ExpectedText.string_literals ls)) =
      ensure (has_literal actual ls) "value doesn't match the reference value string literal"

  -- the command line's match: a skip needs none, any other value one of less than 256 bytes
  unfoldable pub compare_some_cmd_line : List ℕ → Option ExpectedText → Result (Unit {0})
  compare_some_cmd_line line (some (ExpectedText.skipped s)) = ok tt
  compare_some_cmd_line line none =
      if ltb (length line) 256
      then compare_text line none
      else bail "No valid kernel_raw_cmd_line provided"
  compare_some_cmd_line line (some (ExpectedText.regex r)) =
      if ltb (length line) 256
      then compare_text line (some (ExpectedText.regex r))
      else bail "No valid kernel_raw_cmd_line provided"
  compare_some_cmd_line line (some (ExpectedText.string_literals ls)) =
      if ltb (length line) 256
      then compare_text line (some (ExpectedText.string_literals ls))
      else bail "No valid kernel_raw_cmd_line provided"

  unfoldable pub compare_no_cmd_line : Option ExpectedText → Result (Unit {0})
  compare_no_cmd_line (some (ExpectedText.skipped s)) = ok tt
  compare_no_cmd_line _ = bail "No valid kernel_raw_cmd_line provided"

  unfoldable pub compare_cmd_line : Option (List ℕ) → Option TextExpectedValue → Result (Unit {0})
  unfolding compare_some_cmd_line compare_no_cmd_line
  compare_cmd_line line none = bail "No valid kernel_raw_cmd_line provided"
  compare_cmd_line none (some expected) = compare_no_cmd_line expected.type
  compare_cmd_line (some line) (some expected) = compare_some_cmd_line line expected.type

  -- the first arm of the match: an SEV-SNP report against the AMD values
  unfoldable pub compare_sev_snp : AmdAttestationReport → AmdSevExpectedValues → Result (Unit {0})
  compare_sev_snp report amd = do
    stage0 ← context "no stage0 expected value provided" amd.stage0_expected
    with_context "stage0 measurement values failed verification" (
        compare_measurement_digest (record empty_raw { sha2_384 = report.initial_measurement })
          stage0)
    verify_amd_sev_attestation_report report amd

  abbrev insecure_arm : Empty → Result (Unit {0})
  insecure_arm e = with_context "insecure root layer verification failed" (verify_insecure e)

  abbrev invalid_combination : Result (Unit {0})
  invalid_combination =
      bail "invalid combination of root layer reference values and endorsed evidence"

  -- the arms of the match in their order
  unfoldable pub compare_report :
      Option Report → Option AmdSevExpectedValues → Option Empty → Option Empty → Result (Unit {0})
  compare_report (some (sev_snp r)) (some amd) tdx_values insecure = compare_sev_snp r amd
  compare_report (some (sev_snp r)) none tdx_values (some i) = insecure_arm i
  compare_report (some (sev_snp r)) none tdx_values none = invalid_combination
  compare_report (some (tdx r)) amd (some t) insecure = verify_intel_tdx_attestation_report r t
  compare_report (some (tdx r)) amd none (some i) = insecure_arm i
  compare_report (some (tdx r)) amd none none = invalid_combination
  compare_report (some (fake r)) amd tdx_values (some i) = insecure_arm i
  compare_report (some (fake r)) amd tdx_values none = bail "unexpected insecure attestation report"
  compare_report none amd tdx_values (some i) = insecure_arm i
  compare_report none amd tdx_values none = bail "no attestation report"

  unfoldable pub compare_root_layer_measurement_digests :
      RootLayerData → RootLayerExpectedValues → Result (Unit {0})
  unfolding compare_report
  compare_root_layer_measurement_digests values expected =
      compare_report values.report expected.amd_sev expected.intel_tdx expected.insecure

  unfoldable pub compare_kernel_layer_measurement_digests :
      KernelLayerData → KernelLayerExpectedValues → Result (Unit {0})
  compare_kernel_layer_measurement_digests values expected = do
    kernel ← context "no kernel expected values" expected.kernel
    kernel_image ← context "no kernel evidence value" values.kernel_image
    image ← context "expected values contained no image digests" kernel.image
    with_context "kernel image failed verification" (compare_measurement_digest kernel_image image)
    kernel_setup_data ← context "no kernel setup data evidence value" values.kernel_setup_data
    setup_data ← context "expected values contained no setup_data digests" kernel.setup_data
    with_context "kernel setup data failed verification"
        (compare_measurement_digest kernel_setup_data setup_data)
    compare_cmd_line values.kernel_raw_cmd_line expected.kernel_cmd_line_text
    init_ram_fs ← context "no initramfs value provided" values.init_ram_fs
    expected_init ← context "no initramfs expected value provided" expected.init_ram_fs
    with_context "initramfs value failed verification"
        (compare_measurement_digest init_ram_fs expected_init)
    memory_map ← context "no memory_map value provided" values.memory_map
    expected_map ← context "no memory_map expected value provided" expected.memory_map
    with_context "memory_map value failed verification"
        (compare_measurement_digest memory_map expected_map)
    acpi ← context "no ACPI table value provided" values.acpi
    expected_acpi ← context "no ACPI table expected value provided" expected.acpi
    with_context "ACPI table value failed verification"
        (compare_measurement_digest acpi expected_acpi)
