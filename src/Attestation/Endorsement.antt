-- ===== src/Attestation/Endorsement.antt =====
-- oak_attestation_verification/src/endorsement.rs: whether a binary's endorsement holds.
use not_an_oak_fork.Base.{
  ℕ, ℤ, not, List, Result, ok, bail, context, ensure, ◌>>=◌, ◌>>◌, if◌then◌else◌, is_empty,
  from_utf8,
}
use not_an_oak_fork.Attestation.Externals.{Externals, EndorsementStatement}
use not_an_oak_fork.Attestation.Util.{convert_pem_to_raw, equal_keys, verify_signature_raw}
use not_an_oak_fork.Attestation.Claims.{
  Validation, valid, invalid, validate_endorsement, verify_validity_duration,
  parse_endorsement_statement,
}
use not_an_oak_fork.Attestation.Rekor.{verify_rekor_log_entry, get_rekor_log_entry_body}

abbrev pub accepted : Validation → Result (Unit {0})
accepted valid = ok tt
accepted (invalid e) = bail "validating endorsement"

unfoldable pub verify_endorsement_statement : ℤ → EndorsementStatement → Result (Unit {0})
verify_endorsement_statement now statement = do
  accepted (validate_endorsement statement)
  verify_validity_duration now statement

module _ (x : Externals) where
  unfoldable pub verify_endorser_public_key : List ℕ → List ℕ → Result (Unit {0})
  verify_endorser_public_key log_entry endorser_public_key = do
    body ← get_rekor_log_entry_body x log_entry
    pem_bytes ←
        context "couldn't base64-decode public key bytes from server"
          (x.base64_decode body.public_key_content)
    pem ← context "invalid utf-8" (from_utf8 pem_bytes)
    actual ← convert_pem_to_raw x pem
    same ← equal_keys x endorser_public_key actual
    ensure same "endorser public key mismatch"

  unfoldable pub verify_binary_endorsement :
      ℤ → List ℕ → List ℕ → List ℕ → List ℕ → List ℕ → Result (Unit {0})
  unfolding verify_endorsement_statement verify_endorser_public_key
  verify_binary_endorsement now endorsement signature log_entry endorser_public_key
        rekor_public_key =
      do
        statement ← parse_endorsement_statement x endorsement
        if not (is_empty log_entry)
            then (do
              verify_endorsement_statement now statement
              verify_rekor_log_entry x log_entry rekor_public_key endorsement
              verify_endorser_public_key log_entry endorser_public_key)
            else if not (is_empty rekor_public_key)
            then bail "log entry unavailable but verification was requested"
            else verify_signature_raw x signature endorsement endorser_public_key
