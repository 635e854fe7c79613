-- ===== src/Attestation/Expect/Digests.antt =====
-- Expected values of one measurement or text: `get_expected_measurement_digest`,
-- `get_stage0_expected_values`, `get_kernel_expected_values` and `get_text_expected_values`.
use not_an_oak_fork.Base.{
  ℕ, ℤ, Option, none, some, List, [], ◌∷◌, Result, ok, bail, context, unwrap, ensure, panic, ◌>>=◌,
  ◌>>◌, codes, bytes_eq, from_utf8,
}
use not_an_oak_fork.Attestation.Digest.{
  RawDigest, HexDigest, is_hex_digest_match, raw_to_hex_digest, hex_to_raw_digest,
}
use not_an_oak_fork.Attestation.Values.{
  EndorsementReferenceValue, BinaryReference, BinaryReferenceValue, KernelBinaryReference,
  KernelBinaryReferenceValue, TextReference, TextReferenceValue, TransparentReleaseEndorsement,
  FirmwareAttachment, KernelAttachment, empty,
}
use not_an_oak_fork.Attestation.Expectations.{
  Expected, ExpectedDigests, KernelExpectedValues, ExpectedText, TextExpectedValue,
}
use not_an_oak_fork.Attestation.Externals.{Externals}
use not_an_oak_fork.Attestation.Util.{raw_digest_from_contents}
use not_an_oak_fork.Attestation.Claims.{parse_endorsement_statement, get_digest}
use not_an_oak_fork.Attestation.Endorsement.{verify_binary_endorsement}

abbrev pub skipped_digests : ExpectedDigests
skipped_digests = record { type = some (Expected.skipped empty) }

unfoldable pub into_expected_digests : List RawDigest → ExpectedDigests
into_expected_digests source = record { type = some (Expected.digests source) }

module _ (x : Externals) where
  -- the call of `verify_binary_endorsement` with the keys of a reference value
  abbrev pub verify_endorsed :
      ℤ → TransparentReleaseEndorsement → EndorsementReferenceValue → Result (Unit {0})
  verify_endorsed now e keys =
      verify_binary_endorsement x now e.endorsement e.endorsement_signature e.rekor_log_entry
        keys.endorser_public_key keys.rekor_public_key

  unfoldable pub get_measurement_digest :
      ℤ → Option TransparentReleaseEndorsement → Option BinaryReference → Result ExpectedDigests
  get_measurement_digest now endorsement none = bail "empty binary reference value"
  get_measurement_digest now endorsement (some (BinaryReference.skip s)) = ok skipped_digests
  get_measurement_digest now endorsement (some (BinaryReference.digests ds)) =
      ok (into_expected_digests ds)
  get_measurement_digest now endorsement (some (BinaryReference.endorsement keys)) = do
    e ← context "matching endorsement not found for reference value" endorsement
    verify_endorsed now e keys
    statement ← parse_endorsement_statement x e.endorsement
    hex ← get_digest statement
    raw ← hex_to_raw_digest x.hex_decode hex
    ok (into_expected_digests (raw ∷ []))

  unfoldable pub get_expected_measurement_digest :
      ℤ → Option TransparentReleaseEndorsement → BinaryReferenceValue → Result ExpectedDigests
  unfolding get_measurement_digest
  get_expected_measurement_digest now endorsement reference =
      get_measurement_digest now endorsement reference.type

  -- The part that `get_verified_stage0_attachment` and `get_verified_kernel_attachment` share: the
  -- endorsement holds, is meant for the given usage, and its digest is that of the subject.
  unfoldable pub verify_attachment :
      List ℕ → ℤ → TransparentReleaseEndorsement → EndorsementReferenceValue → Result (Unit {0})
  verify_attachment usage now e keys = do
    verify_endorsed now e keys
    statement ← parse_endorsement_statement x e.endorsement
    ensure (bytes_eq statement.predicate.usage usage) "unexpected endorsement usage"
    expected ← get_digest statement
    is_hex_digest_match (raw_to_hex_digest x.hex_encode (raw_digest_from_contents x e.subject))
        expected

  unfoldable pub get_verified_stage0_attachment :
      ℤ → TransparentReleaseEndorsement → EndorsementReferenceValue → Result FirmwareAttachment
  unfolding verify_attachment
  get_verified_stage0_attachment now e keys = do
    verify_attachment (codes "firmware") now e keys
    context "couldn't parse stage0 attachment" (x.decode_firmware e.subject)

  unfoldable pub get_verified_kernel_attachment :
      ℤ → TransparentReleaseEndorsement → EndorsementReferenceValue → Result KernelAttachment
  unfolding verify_attachment
  get_verified_kernel_attachment now e keys = do
    verify_attachment (codes "kernel") now e keys
    context "couldn't parse kernel attachment" (x.decode_kernel e.subject)

  abbrev unwrap_result {ℓ} : {A : Type ℓ} → Result A → Result A
  unwrap_result (ok a) = ok a
  unwrap_result _ = panic

  -- `hex_to_raw_digest(digest).unwrap()` for each digest of the attachment
  unfoldable pub config_digests : List (ℕ × HexDigest) → Result (List RawDigest)
  config_digests [] = ok []
  config_digests ((cpus, h) ∷ rest) = do
    raw ← unwrap_result (hex_to_raw_digest x.hex_decode h)
    raws ← config_digests rest
    ok (raw ∷ raws)

  unfoldable pub get_stage0_digests :
      ℤ → Option TransparentReleaseEndorsement → Option BinaryReference → Result ExpectedDigests
  unfolding config_digests
  get_stage0_digests now endorsement none = bail "empty stage0 reference value"
  get_stage0_digests now endorsement (some (BinaryReference.skip s)) = ok skipped_digests
  get_stage0_digests now endorsement (some (BinaryReference.digests ds)) =
      ok (into_expected_digests ds)
  get_stage0_digests now endorsement (some (BinaryReference.endorsement keys)) = do
    e ← context "matching endorsement not found for reference value" endorsement
    attachment ← get_verified_stage0_attachment now e keys
    raws ← config_digests attachment.configs
    ok (into_expected_digests raws)

  unfoldable pub get_stage0_expected_values :
      ℤ → Option TransparentReleaseEndorsement → BinaryReferenceValue → Result ExpectedDigests
  unfolding get_stage0_digests
  get_stage0_expected_values now endorsement reference =
      get_stage0_digests now endorsement reference.type

  unfoldable pub get_kernel_digests :
      ℤ
      → Option TransparentReleaseEndorsement
      → Option KernelBinaryReference
      → Result KernelExpectedValues
  get_kernel_digests now endorsement none = bail "empty binary reference value"
  get_kernel_digests now endorsement (some (KernelBinaryReference.skip s)) =
      ok (record { image = some skipped_digests; setup_data = some skipped_digests })
  get_kernel_digests now endorsement (some (KernelBinaryReference.digests ds)) = do
    image ← context "no image digests provided" ds.image
    setup_data ← context "no setup_data digests provided" ds.setup_data
    ok (record {
      image = some (into_expected_digests image);
      setup_data = some (into_expected_digests setup_data);
    })
  get_kernel_digests now endorsement (some (KernelBinaryReference.endorsement keys)) = do
    e ← context "matching endorsement not found for reference value" endorsement
    attachment ← get_verified_kernel_attachment now e keys
    image ← context "no image digest in kernel attachment" attachment.image
    setup_data ← context "no setup data digest in kernel attachment" attachment.setup_data
    raw_image ← hex_to_raw_digest x.hex_decode image
    raw_setup ← hex_to_raw_digest x.hex_decode setup_data
    ok (record {
      image = some (into_expected_digests (raw_image ∷ []));
      setup_data = some (into_expected_digests (raw_setup ∷ []));
    })

  unfoldable pub get_kernel_expected_values :
      ℤ
      → Option TransparentReleaseEndorsement
      → KernelBinaryReferenceValue
      → Result KernelExpectedValues
  unfolding get_kernel_digests
  get_kernel_expected_values now endorsement reference =
      get_kernel_digests now endorsement reference.type

  unfoldable pub get_texts :
      ℤ → Option TextReference → Option TransparentReleaseEndorsement → Result TextExpectedValue
  get_texts now none endorsement = bail "missing skip or value in the text reference value"
  get_texts now (some (TextReference.skip s)) endorsement =
      ok (record { type = some (ExpectedText.skipped empty) })
  get_texts now (some (TextReference.regex r)) endorsement =
      ok (record { type = some (ExpectedText.regex r) })
  get_texts now (some (TextReference.string_literals ls)) endorsement =
      ok (record { type = some (ExpectedText.string_literals ls) })
  get_texts now (some (TextReference.endorsement keys)) endorsement = do
    e ← context "matching endorsement not found for text reference value" endorsement
    verify_endorsed now e keys
    regex ← unwrap (from_utf8 e.subject)
    ok (record { type = some (ExpectedText.regex regex) })

  unfoldable pub get_text_expected_values :
      ℤ → TextReferenceValue → Option TransparentReleaseEndorsement → Result TextExpectedValue
  unfolding get_texts
  get_text_expected_values now value endorsement = get_texts now value.type endorsement
