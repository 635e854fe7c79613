-- ===== src/Attestation/Rekor.antt =====
-- oak_attestation_verification/src/rekor.rs: entries of the transparency log.
use not_an_oak_fork.Base.{
  ℕ, not, Option, none, some, List, [], ◌∷◌, ◌++◌, Result, ok, context, with_context, unwrap,
  ensure, ◌>>=◌, ◌>>◌, codes, bytes_eq, from_utf8, contains_char, decimal,
}
use not_an_oak_fork.Attestation.Externals.{Externals, LogEntry, Body}
use not_an_oak_fork.Attestation.Util.{convert_pem_to_raw, verify_signature_raw}

pub record RekorSignatureBundle : Type 0 where
  pub canonicalized : List ℕ
  pub signature : List ℕ

-- the JSON text that the log signs
unfoldable pub canonicalize : LogEntry → List ℕ
canonicalize e =
    codes "{\"body\":\""
    ++ (e.body
        ++ (codes "\",\"integratedTime\":"
            ++ (decimal e.integrated_time
                ++ (codes ",\"logID\":\""
                    ++ (e.log_id
                        ++ (codes "\",\"logIndex\":" ++ (decimal e.log_index ++ codes "}")))))))

abbrev first_entry : List LogEntry → Option LogEntry
first_entry [] = none
first_entry (e ∷ es) = some e

module _ (x : Externals) where
  open x use {hex_encode, base64_decode, sha2_256, parse_log_entries, parse_body}

  unfoldable pub bundle_of_entry : LogEntry → Result RekorSignatureBundle
  unfolding canonicalize
  bundle_of_entry e = do
    ensure (not (contains_char b'"' e.body)) "Condition failed"
    ensure (not (contains_char b'"' e.log_id)) "Condition failed"
    sig_base64 ← context "no verification field in the log entry" e.signed_entry_timestamp
    signature ← context "couldn't decode Base64 signature" (base64_decode sig_base64)
    ok (record { canonicalized = canonicalize e; signature = signature })

  unfoldable pub rekor_signature_bundle : List ℕ → Result RekorSignatureBundle
  unfolding bundle_of_entry
  rekor_signature_bundle log_entry = do
    parsed ← context "couldn't parse bytes into a LogEntry object" (parse_log_entries log_entry)
    entry ← context "no entry in the map" (first_entry parsed)
    bundle_of_entry entry

  unfoldable pub get_rekor_log_entry_body : List ℕ → Result Body
  get_rekor_log_entry_body log_entry = do
    parsed ← context "couldn't parse bytes into a LogEntry object" (parse_log_entries log_entry)
    entry ← context "no entry in the map" (first_entry parsed)
    body_bytes ← context "couldn't decode Base64 signature" (base64_decode entry.body)
    context "couldn't parse bytes into a Body object" (parse_body body_bytes)

  unfoldable pub verify_rekor_signature : List ℕ → List ℕ → Result (Unit {0})
  unfolding rekor_signature_bundle
  verify_rekor_signature log_entry rekor_public_key = do
    bundle ← rekor_signature_bundle log_entry
    with_context "couldn't verify signedEntryTimestamp of the Rekor LogEntry"
        (verify_signature_raw x bundle.signature bundle.canonicalized rekor_public_key)

  unfoldable pub verify_rekor_body : Body → List ℕ → Result (Unit {0})
  verify_rekor_body body contents = do
    ensure (bytes_eq body.signature_format (codes "x509")) "unsupported signature format"
    ensure (bytes_eq body.hash_algorithm (codes "sha256")) "unsupported hash algorithm"
    ensure (bytes_eq (hex_encode (sha2_256 contents)) body.hash_value)
        "the hash of the endorsement file does not match the hash of the data in the body of the rekor entry"
    signature ← unwrap (base64_decode body.signature_content)
    pem_bytes ← unwrap (base64_decode body.public_key_content)
    pem ← context "invalid utf-8" (from_utf8 pem_bytes)
    public_key ← convert_pem_to_raw x pem
    with_context "couldn't verify signature over the endorsement"
        (verify_signature_raw x signature contents public_key)

  unfoldable pub verify_rekor_log_entry : List ℕ → List ℕ → List ℕ → Result (Unit {0})
  unfolding verify_rekor_signature get_rekor_log_entry_body verify_rekor_body
  verify_rekor_log_entry log_entry rekor_public_key endorsement = do
    verify_rekor_signature log_entry rekor_public_key
    body ← get_rekor_log_entry_body log_entry
    verify_rekor_body body endorsement
