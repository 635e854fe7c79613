-- ===== src/Attestation/Amd.antt =====
-- oak_attestation_verification/src/amd.rs: the AMD certificate chain and the signature of the
-- attestation report. A certificate's extensions are pairs of an OID and the value's bytes.
use mathlib.Core.List.{reverse}
use not_an_oak_fork.Base.{
  ℕ, Bool, true, false, Option, none, some, List, [], ◌∷◌, Result, ok, panic, context, ensure,
  ◌>>=◌, ◌>>◌, ◌==◌, if◌then◌else◌, codes, bytes_eq, length, take,
}
use not_an_oak_fork.Attestation.Report.{
  AttestationReport, TcbVersion, SigningAlgorithm, invalid_algorithm, ecdsa_p384_sha384,
  get_signature_algo,
}
use not_an_oak_fork.Attestation.Externals.{Externals}

abbrev bl_oid : List ℕ
bl_oid = codes "1.3.6.1.4.1.3704.1.3.1"

abbrev tee_oid : List ℕ
tee_oid = codes "1.3.6.1.4.1.3704.1.3.2"

abbrev snp_oid : List ℕ
snp_oid = codes "1.3.6.1.4.1.3704.1.3.3"

abbrev chip_id_oid : List ℕ
chip_id_oid = codes "1.3.6.1.4.1.3704.1.4"

abbrev ucode_oid : List ℕ
ucode_oid = codes "1.3.6.1.4.1.3704.1.3.8"

unfoldable pub find_extension : List ℕ → List (List ℕ × List ℕ) → Option (List ℕ)
find_extension oid [] = none
find_extension oid ((id, value) ∷ rest) =
    if bytes_eq id oid then some value else find_extension oid rest

-- `arr[arr.len() - 1]` panics on an empty value.
unfoldable pub last_byte : List ℕ → Result ℕ
last_byte [] = panic
last_byte (b ∷ []) = ok b
last_byte (b ∷ c ∷ r) = last_byte (c ∷ r)

unfoldable pub set_tcb : List ℕ → ℕ → TcbVersion → TcbVersion
set_tcb oid b tcb =
    if bytes_eq oid bl_oid
    then record tcb { boot_loader = b }
    else if bytes_eq oid tee_oid
    then record tcb { tee = b }
    else if bytes_eq oid snp_oid
    then record tcb { snp = b }
    else if bytes_eq oid ucode_oid
    then record tcb { microcode = b }
    else tcb

unfoldable pub tcb_of_extensions : TcbVersion → List (List ℕ × List ℕ) → Result TcbVersion
unfolding last_byte set_tcb
tcb_of_extensions tcb [] = ok tcb
tcb_of_extensions tcb ((oid, value) ∷ rest) =
    last_byte value >>= λ b. tcb_of_extensions (set_tcb oid b tcb) rest

abbrev zero_tcb : TcbVersion
zero_tcb = record {
  boot_loader = 0;
  tee = 0;
  reserved = 0 ∷ 0 ∷ 0 ∷ 0 ∷ [];
  snp = 0;
  microcode = 0;
}

abbrev is_ecdsa : Option SigningAlgorithm → Bool
is_ecdsa none = false
is_ecdsa (some invalid_algorithm) = false
is_ecdsa (some ecdsa_p384_sha384) = true

module _ (x : Externals) where
  open x use {
    Certificate, is_v3, uses_rsa_pss, extensions, rsa_key, tbs_der, rsa_signature, rsa_verifies,
    p384_key, p384_signature, p384_verifies, report_bytes,
  }

  unfoldable pub verify_cert_signature : Certificate → Certificate → Result (Unit {0})
  verify_cert_signature signer signee = do
    ensure (uses_rsa_pss signee) "unsupported signature algorithm"
    key ← context "could not parse RSA public key" (rsa_key signer)
    message ← context "could not extract message to verify RSA signature" (tbs_der signee)
    signature ← context "could not extract RSA signature" (rsa_signature signee)
    ensure (rsa_verifies key message signature) "signature verification failed"

  -- both certificates are signed with the key of the first
  unfoldable pub validate_ark_ask_certs : Certificate → Certificate → Result (Unit {0})
  unfolding verify_cert_signature
  validate_ark_ask_certs ark ask = do
    ensure (is_v3 ark) "unexpected version of ARK cert"
    ensure (is_v3 ask) "unexpected version of ASK cert"
    verify_cert_signature ark ask
    verify_cert_signature ark ark

  unfoldable pub chip_id : Certificate → Result (List ℕ)
  unfolding find_extension
  chip_id cert = do
    exts ← context "could not get extensions from cert" (extensions cert)
    id ← context "no chip ID found in cert" (find_extension chip_id_oid exts)
    ensure (length id == 64) "length of chip ID value is not 64"
    ok id

  unfoldable pub tcb_version : Certificate → Result TcbVersion
  unfolding tcb_of_extensions
  tcb_version vcek = do
    exts ← context "could not get extensions from VCEK cert" (extensions vcek)
    tcb_of_extensions zero_tcb exts

  -- `r` and `s` are 48 bytes each, mirrored from little to big endian.
  unfoldable pub verify_attestation_report_signature :
      Certificate → AttestationReport → Result (Unit {0})
  unfolding chip_id tcb_version
  verify_attestation_report_signature vcek report = do
    vcek_chip_id ← chip_id vcek
    ensure (bytes_eq report.report_body.chip_id vcek_chip_id) "chip id differs"
    vcek_tcb ← tcb_version vcek
    ensure (report.report_body.reported_tcb.snp == vcek_tcb.snp)
        "mismatch in snp field of TCB version"
    ensure (report.report_body.reported_tcb.microcode == vcek_tcb.microcode)
        "mismatch in microcode field of TCB version"
    ensure (report.report_body.reported_tcb.tee == vcek_tcb.tee)
        "mismatch in tee field of TCB version"
    ensure (report.report_body.reported_tcb.boot_loader == vcek_tcb.boot_loader)
        "mismatch in boot_loader field of TCB version"
    ensure (is_ecdsa (get_signature_algo report.report_body)) "invalid signature algoritm"
    key ← context "could not extract ECDSA P-384 public key" (p384_key vcek)
    signature ← context "could not extract ECDSA P-384 signature" (
        p384_signature (reverse (take 48 report.signature.r))
          (reverse (take 48 report.signature.s)))
    ensure (p384_verifies key (report_bytes report.report_body) signature)
        "failed to verify ECDSA P-384 signature"
