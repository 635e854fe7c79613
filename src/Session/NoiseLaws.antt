-- ===== src/Session/NoiseLaws.antt =====
-- The symmetric state of oak_crypto/src/noise_handshake/noise.rs never panics in the handshake, and
-- the side that decrypts follows that which encrypts.
use not_an_oak_fork.Base.{
  ℕ, suc, ◌^◌, ◌≤◌, ◌≡◌, refl, true, false, ltb, lt→ltb, ◌==◌, some, [], ◌++◌, length, take, drop,
  length-take, length-drop, arith,
}
use not_an_oak_fork.Session.Run.{ok}
use not_an_oak_fork.Session.Crypto.{
  Bytes, Crypto, IsCrypto, to_array, hkdf_sha256, aes_256_gcm_seal_in_place,
  aes_256_gcm_open_in_place, sha256_two_part, compute_public_key, p256_scalar_mult, multiply,
  x_bytes,
}
use not_an_oak_fork.Session.Noise.{
  Noise, hkdf2, mix_hash, mix_key, initialize_key, encrypt_and_hash, decrypt_and_hash, traffic_keys,
  next_nonce, nonce_bytes,
}

pub to_array-ok : (n : ℕ) (bs : Bytes) → length bs ≡ n → to_array n bs ≡ ok bs
to_array-ok n bs h = let e : (length bs == n) ≡ true = ground (arith, h) in rw e refl

module _ {Scalar Point : Type 0} (c : Crypto Scalar Point) (l : IsCrypto Scalar Point c) where
  pub hkdf2-ok :
      (ck ikm : Bytes)
      → (k1 k2 : Bytes) × (hkdf2 c ck ikm ≡ ok (k1, k2)) × (length k1 ≡ 32) × (length k2 ≡ 32)
  unfolding hkdf2 hkdf_sha256
  hkdf2-ok ck ikm =
      let (o, e, n) = l.expand-some ck ikm [] 64 (omega arith) in
      let first : length (take 32 o) ≡ 32 = omega (arith, length-take 32 o, n) in
      let second : length (drop 32 o) ≡ 32 = omega (arith, length-drop 32 o, n) in
      (
        take 32 o,
        drop 32 o,
        rw e (rw (to_array-ok 32 (take 32 o) first) (rw (to_array-ok 32 (drop 32 o) second) refl)),
        first,
        second,
      )

  -- a state whose key and hash are arrays, before its first message
  pub record Ready (n : Noise) : Type 0 where
    pub length-h : length n.h ≡ 32
    pub length-symmetric_key : length n.symmetric_key ≡ 32
    pub no_nonce : n.symmetric_nonce ≡ 0

  pub mix_key-Ready :
      (ikm : Bytes) (n : Noise)
      → length n.h ≡ 32
      → (n' : Noise) × (mix_key c ikm n ≡ ok n') × Ready n'
  unfolding mix_key initialize_key
  mix_key-Ready ikm n h =
      let (k1, k2, e, _, p) = hkdf2-ok n.chaining_key ikm in
      (
        initialize_key k2 record n { chaining_key = k1 },
        rw e refl,
        record { length-h = h; length-symmetric_key = p; no_nonce = refl },
      )

  pub length-mix_hash : (bs : Bytes) (n : Noise) → length (mix_hash c bs n).h ≡ 32
  unfolding mix_hash sha256_two_part
  length-mix_hash bs n = l.length-sha256 (n.h ++ bs)

  pub traffic_keys-ok :
      (n : Noise)
      → (k1 k2 : Bytes) × (traffic_keys c n ≡ ok (k1, k2)) × (length k1 ≡ 32) × (length k2 ≡ 32)
  unfolding traffic_keys
  traffic_keys-ok n = hkdf2-ok n.chaining_key []

  pub record Follows (n : Noise) (text : Bytes) : Type 0 where
    pub ciphertext : Bytes
    pub after : Noise
    pub encrypted : encrypt_and_hash c text n ≡ ok (ciphertext, after)
    pub decrypted : decrypt_and_hash c ciphertext n ≡ ok (text, after)
    pub length-after : length after.h ≡ 32

  pub encrypt_and_hash-Follows :
      (n : Noise) (text : Bytes) → Ready n → length text ≤ 2 ^ 36 → Follows n text
  unfolding encrypt_and_hash decrypt_and_hash next_nonce aes_256_gcm_seal_in_place
      aes_256_gcm_open_in_place mix_hash sha256_two_part nonce_bytes
  encrypt_and_hash-Follows n text r short =
      let (o, e, d) =
        l.encrypt_in_place-some n.symmetric_key (nonce_bytes n.symmetric_nonce) n.h text
          r.length-symmetric_key refl (omega (arith, r.length-h)) short in
      let room : ltb (suc n.symmetric_nonce) (2 ^ 32) ≡ true =
        lt→ltb _ _ (omega (arith, r.no_nonce)) in
      record {
        ciphertext = o;
        after = record n { h = sha256_two_part c n.h o; symmetric_nonce = suc n.symmetric_nonce };
        encrypted = rw room (rw e refl);
        decrypted = rw room (rw d refl);
        length-after = l.length-sha256 (n.h ++ o);
      }

  -- the public key of a scalar
  abbrev pub public_key : Scalar → Bytes
  public_key s = c.to_encoded_point (c.mul_by_generator s)

  pub compute_public_key-ok :
      (s : Scalar) → c.is_zero s ≡ false → compute_public_key c s ≡ ok (public_key s)
  unfolding compute_public_key
  compute_public_key-ok s h = to_array-ok 65 _ (l.length-to_encoded_point s h)

  -- Both sides find the same shared secret.
  pub p256_scalar_mult-agree :
      (s t : Scalar)
      → c.is_zero s ≡ false
      → c.is_zero t ≡ false
      → (b : Bytes) × (p256_scalar_mult c t (public_key s) ≡ ok (some b))
        × (p256_scalar_mult c s (public_key t) ≡ ok (some b))
  unfolding p256_scalar_mult multiply x_bytes
  p256_scalar_mult-agree s t hs ht =
      let (b, p, q, n) = l.x-mul s t hs ht in
      (
        b,
        rw (l.from_encoded_point-to_encoded_point s hs) (rw p (rw (to_array-ok 32 b n) refl)),
        rw (l.from_encoded_point-to_encoded_point t ht) (rw q (rw (to_array-ok 32 b n) refl)),
      )
