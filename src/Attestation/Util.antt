-- ===== src/Attestation/Util.antt =====
-- oak_attestation_verification/src/util.rs: keys in PEM, and signatures over bytes.
use not_an_oak_fork.Base.{
  ℕ, suc, ◌%◌, Bool, List, [], ◌∷◌, ◌++◌, Result, ok, context, unwrap, ensure, ◌>>=◌, ◌==◌,
  if◌then◌else◌, codes, trim, strip_prefix, strip_suffix, remove_char,
}
use not_an_oak_fork.Attestation.Digest.{RawDigest, empty_raw}
use not_an_oak_fork.Attestation.Externals.{Externals}

abbrev pub pem_header : List ℕ
pem_header = codes "-----BEGIN PUBLIC KEY-----"

abbrev pub pem_footer : List ℕ
pem_footer = codes "-----END PUBLIC KEY-----"

-- The line breaks before each 64th character, the first included.
unfoldable pub pem_lines : ℕ → List ℕ → List ℕ
pem_lines i [] = []
pem_lines i (c ∷ cs) =
    if i % 64 == 0 then b'\n' ∷ c ∷ pem_lines (suc i) cs else c ∷ pem_lines (suc i) cs

module _ (x : Externals) where
  open x use {
    base64_encode, base64_decode, VerifyingKey, key_from_pem, keys_equal, signature_from_der,
    verifies, sha2_256, sha2_384, sha2_512,
  }

  unfoldable pub convert_pem_to_raw : List ℕ → Result (List ℕ)
  convert_pem_to_raw pem = do
    headless ← unwrap (strip_prefix pem_header (trim pem))
    stripped ← unwrap (strip_suffix pem_footer headless)
    context "invalid base64" (base64_decode (remove_char b'\n' stripped))

  unfoldable pub convert_raw_to_pem : List ℕ → List ℕ
  unfolding pem_lines
  convert_raw_to_pem key =
      pem_header ++ (pem_lines 0 (base64_encode key) ++ (b'\n' ∷ (pem_footer ++ (b'\n' ∷ []))))

  unfoldable pub convert_pem_to_verifying_key : List ℕ → Result VerifyingKey
  convert_pem_to_verifying_key pem =
      context "couldn't parse pem as a p256::ecdsa::VerifyingKey" (key_from_pem pem)

  unfoldable pub convert_raw_to_verifying_key : List ℕ → Result VerifyingKey
  unfolding convert_raw_to_pem convert_pem_to_verifying_key
  convert_raw_to_verifying_key key = convert_pem_to_verifying_key (convert_raw_to_pem key)

  unfoldable pub equal_keys : List ℕ → List ℕ → Result Bool
  unfolding convert_raw_to_verifying_key
  equal_keys a b = do
    key_a ← convert_raw_to_verifying_key a
    key_b ← convert_raw_to_verifying_key b
    ok (keys_equal key_a key_b)

  unfoldable pub verify_signature_raw : List ℕ → List ℕ → List ℕ → Result (Unit {0})
  unfolding convert_raw_to_verifying_key
  verify_signature_raw signature contents public_key = do
    sig ← context "invalid ASN.1 signature" (signature_from_der signature)
    key ← convert_raw_to_verifying_key public_key
    ensure (verifies key contents sig) "couldn't verify signature"

  unfoldable pub raw_digest_from_contents : List ℕ → RawDigest
  raw_digest_from_contents contents = record empty_raw {
    sha2_256 = sha2_256 contents;
    sha2_512 = sha2_512 contents;
    sha2_384 = sha2_384 contents;
  }
