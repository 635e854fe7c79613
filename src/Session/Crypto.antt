-- ===== src/Session/Crypto.antt =====
-- oak_crypto/src/noise_handshake/crypto_wrapper.rs: the functions that the handshake takes from the
-- packages sha2, hkdf, aes_gcm and p256, which are parameters, and what is built on them.
use not_an_oak_fork.Base.{
  ℕ, ◌*◌, ◌^◌, ◌≤◌, ◌≡◌, Bool, false, if◌then◌else◌, Option, some, none, List, ◌∷◌, ◌++◌, length,
  replicate, ◌==◌,
}
use not_an_oak_fork.Session.Run.{Run, ok, unwrap, ◌>>=◌, checked}

abbrev pub Bytes : Type 0
Bytes = List ℕ

abbrev pub nonce_len : ℕ
nonce_len = 12

abbrev pub sha256_output_len : ℕ
sha256_output_len = 32

abbrev pub symmetric_key_len : ℕ
symmetric_key_len = 32

abbrev pub p256_x962_len : ℕ
p256_x962_len = 65

abbrev pub p256_scalar_len : ℕ
p256_scalar_len = 32

-- Scalars are `p256::Scalar`, points are those of the curve.
module _ (Scalar Point : Type 0) where
  pub record Crypto : Type 0 where
    pub sha256 : Bytes → Bytes
    -- `Hkdf::<Sha256>::new(Some(salt), ikm).expand(info, output)`, for so many bytes of output
    pub expand : Bytes → Bytes → Bytes → ℕ → Option Bytes
    -- `encrypt_in_place` and `decrypt_in_place` of `Aes256Gcm`: the key, the nonce, the associated
    -- data and the text
    pub encrypt_in_place : Bytes → Bytes → Bytes → Bytes → Option Bytes
    pub decrypt_in_place : Bytes → Bytes → Bytes → Bytes → Option Bytes
    pub from_repr : Bytes → Option Scalar
    pub to_repr : Scalar → Bytes
    pub is_zero : Scalar → Bool
    pub mul_by_generator : Scalar → Point
    pub mul : Point → Scalar → Point
    -- uncompressed
    pub to_encoded_point : Point → Bytes
    -- `EncodedPoint::from_bytes` and `AffinePoint::from_encoded_point`
    pub from_encoded_point : Bytes → Option Point
    pub x : Point → Option Bytes

  -- What the documentation of the packages says: the lengths of hashes and keys, up to which length
  -- a text is encrypted, that what is encrypted is decrypted, that 1, 0, 0, ... is a scalar, and
  -- that of two points on the curve, each a multiple of the generator by a scalar that is not zero,
  -- both owners of a scalar find the same product.
  pub record IsCrypto (c : Crypto) : Type 0 where
    pub length-sha256 : (bs : Bytes) → length (c.sha256 bs) ≡ 32
    pub expand-some :
        (salt ikm info : Bytes) (n : ℕ)
        → n ≤ 255 * 32
        → (o : Bytes) × (c.expand salt ikm info n ≡ some o) × (length o ≡ n)
    pub encrypt_in_place-some :
        (k nonce aad text : Bytes)
        → length k ≡ 32
        → length nonce ≡ 12
        → length aad ≤ 2 ^ 36
        → length text ≤ 2 ^ 36
        → (o : Bytes) × (c.encrypt_in_place k nonce aad text ≡ some o)
          × (c.decrypt_in_place k nonce aad o ≡ some text)
    pub from_repr-some :
        (s : Scalar) × (c.from_repr (1 ∷ replicate 31 0) ≡ some s) × (c.is_zero s ≡ false)
    pub length-to_encoded_point :
        (s : Scalar) → c.is_zero s ≡ false → length (c.to_encoded_point (c.mul_by_generator s)) ≡ 65
    pub from_encoded_point-to_encoded_point :
        (s : Scalar)
        → c.is_zero s ≡ false
        → c.from_encoded_point (c.to_encoded_point (c.mul_by_generator s))
          ≡ some (c.mul_by_generator s)
    pub x-mul :
        (s t : Scalar)
        → c.is_zero s ≡ false
        → c.is_zero t ≡ false
        → (b : Bytes) × (c.x (c.mul (c.mul_by_generator s) t) ≡ some b)
          × (c.x (c.mul (c.mul_by_generator t) s) ≡ some b)
          × (length b ≡ 32)

-- `try_into` of a slice to an array, unwrapped
abbrev pub to_array : ℕ → Bytes → Run Bytes
to_array n bs = checked (length bs == n) bs

module _ {Scalar Point : Type 0} (c : Crypto Scalar Point) where
  unfoldable pub hkdf_sha256 : Bytes → Bytes → Bytes → ℕ → Option Bytes
  hkdf_sha256 ikm salt info n = c.expand salt ikm info n

  unfoldable pub aes_256_gcm_seal_in_place : Bytes → Bytes → Bytes → Bytes → Run Bytes
  aes_256_gcm_seal_in_place key nonce aad plaintext =
      unwrap (c.encrypt_in_place key nonce aad plaintext)

  unfoldable pub aes_256_gcm_open_in_place : Bytes → Bytes → Bytes → Bytes → Option Bytes
  aes_256_gcm_open_in_place key nonce aad ciphertext = c.decrypt_in_place key nonce aad ciphertext

  unfoldable pub sha256_two_part : Bytes → Bytes → Bytes
  sha256_two_part input1 input2 = c.sha256 (input1 ++ input2)

  unfoldable pub generate : Run Scalar
  generate = unwrap (c.from_repr (1 ∷ replicate 31 0))

  unfoldable pub compute_public_key : Scalar → Run Bytes
  compute_public_key s = to_array p256_x962_len (c.to_encoded_point (c.mul_by_generator s))

  unfoldable pub nonzero : Option Scalar → Option Scalar
  nonzero none = none
  nonzero (some s) = if c.is_zero s then none else some s

  -- `TryFrom<&[u8]>` of `P256Scalar`
  unfoldable pub scalar_try_from : Bytes → Option Scalar
  unfolding nonzero
  scalar_try_from bytes =
      if length bytes == p256_scalar_len then nonzero (c.from_repr bytes) else none

  -- the outer result is a panic or not, the inner one that of the function
  unfoldable pub x_bytes : Option Bytes → Run (Option Bytes)
  x_bytes none = ok none
  x_bytes (some b) = to_array 32 b >>= λ a. ok (some a)

  unfoldable pub multiply : Option Point → Scalar → Run (Option Bytes)
  unfolding x_bytes
  multiply none s = ok none
  multiply (some p) s = x_bytes (c.x (c.mul p s))

  unfoldable pub p256_scalar_mult : Scalar → Bytes → Run (Option Bytes)
  unfolding multiply
  p256_scalar_mult scalar point = multiply (c.from_encoded_point point) scalar
