-- ===== src/Session/Noise.antt =====
-- oak_crypto/src/noise_handshake/noise.rs: the symmetric state of the handshake.
use not_an_oak_fork.Base.{
  ℕ, suc, ◌-◌, ◌/◌, ◌%◌, ◌^◌, ltb, [], ◌∷◌, ◌++◌, length, take, drop, replicate, codes,
}
use not_an_oak_fork.Session.Run.{Run, ok, unwrap, or_error, ◌>>=◌, checked, decrypt_failed}
use not_an_oak_fork.Session.Crypto.{
  Bytes, symmetric_key_len, Crypto, to_array, hkdf_sha256, aes_256_gcm_seal_in_place,
  aes_256_gcm_open_in_place, sha256_two_part,
}

pub data HandshakeType : Type 0 where
  nk : HandshakeType
  nn : HandshakeType

pub record Noise : Type 0 where
  pub chaining_key : Bytes
  pub h : Bytes
  pub symmetric_key : Bytes
  pub symmetric_nonce : ℕ

unfoldable pub protocol_name : HandshakeType → Bytes
protocol_name nk = codes "Noise_NK_P256_AESGCM_SHA256"
protocol_name nn = codes "Noise_NN_P256_AESGCM_SHA256"

unfoldable pub chaining_key_in : HandshakeType → Bytes
unfolding protocol_name
chaining_key_in t = protocol_name t ++ replicate (symmetric_key_len - length (protocol_name t)) 0

unfoldable pub new : HandshakeType → Noise
unfolding chaining_key_in
new t = record {
  chaining_key = chaining_key_in t;
  h = chaining_key_in t;
  symmetric_key = replicate symmetric_key_len 0;
  symmetric_nonce = 0;
}

unfoldable pub initialize_key : Bytes → Noise → Noise
initialize_key key n = record n { symmetric_key = key; symmetric_nonce = 0 }

-- the number with its highest byte first, as the first bytes of the nonce
unfoldable pub nonce_bytes : ℕ → Bytes
nonce_bytes n =
    (n / 2 ^ 24 % 256) ∷ (n / 2 ^ 16 % 256) ∷ (n / 2 ^ 8 % 256) ∷ (n % 256) ∷ replicate 8 0

unfoldable pub next_nonce : Noise → Run (Bytes × Noise)
unfolding nonce_bytes
next_nonce n =
    checked (ltb (suc n.symmetric_nonce) (2 ^ 32))
      (nonce_bytes n.symmetric_nonce, record n { symmetric_nonce = suc n.symmetric_nonce })

module _ {Scalar Point : Type 0} (c : Crypto Scalar Point) where
  unfoldable pub hkdf2 : Bytes → Bytes → Run (Bytes × Bytes)
  unfolding hkdf_sha256
  hkdf2 ck ikm = do
    output ← unwrap (hkdf_sha256 c ikm ck [] 64)
    key1 ← to_array symmetric_key_len (take symmetric_key_len output)
    key2 ← to_array symmetric_key_len (drop symmetric_key_len output)
    ok (key1, key2)

  unfoldable pub mix_hash : Bytes → Noise → Noise
  unfolding sha256_two_part
  mix_hash in_data n = record n { h = sha256_two_part c n.h in_data }

  unfoldable pub mix_key : Bytes → Noise → Run Noise
  unfolding hkdf2 initialize_key
  mix_key ikm n = do
    (chaining_key, key) ← hkdf2 n.chaining_key ikm
    ok (initialize_key key record n { chaining_key = chaining_key })

  unfoldable pub encrypt_and_hash : Bytes → Noise → Run (Bytes × Noise)
  unfolding next_nonce aes_256_gcm_seal_in_place mix_hash
  encrypt_and_hash plaintext n = do
    (nonce, n') ← next_nonce n
    encrypted_data ← aes_256_gcm_seal_in_place c n'.symmetric_key nonce n'.h plaintext
    ok (encrypted_data, mix_hash encrypted_data n')

  unfoldable pub decrypt_and_hash : Bytes → Noise → Run (Bytes × Noise)
  unfolding next_nonce aes_256_gcm_open_in_place mix_hash
  decrypt_and_hash ciphertext n = do
    (nonce, n') ← next_nonce (mix_hash ciphertext n)
    plaintext ←
        or_error decrypt_failed (aes_256_gcm_open_in_place c n'.symmetric_key nonce n.h ciphertext)
    ok (plaintext, n')

  unfoldable pub traffic_keys : Noise → Run (Bytes × Bytes)
  unfolding hkdf2
  traffic_keys n = hkdf2 n.chaining_key []
