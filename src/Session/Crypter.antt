-- ===== src/Session/Crypter.antt =====
-- oak_crypto/src/noise_handshake/mod.rs: the nonces and the padding of the messages that follow the
-- handshake. A call that fails with an error may have changed the state, so a call gives both.
use not_an_oak_fork.Base.{
  ℕ, suc, ◌+◌, ◌-◌, ◌*◌, ◌/◌, ◌%◌, ◌^◌, ◌||◌, if◌then◌else◌, ltb, leb, [], ◌∷◌, ◌++◌, length, take,
  replicate, set, get_or, is_empty,
}
use not_an_oak_fork.Session.Run.{
  Run, ok, err, ◌>>=◌, or_error, data_too_large, decrypt_failed, decryption_padding,
}
use not_an_oak_fork.Session.Crypto.{
  Bytes, Crypto, nonce_len, aes_256_gcm_seal_in_place, aes_256_gcm_open_in_place,
}

abbrev pub max_sequence : ℕ
max_sequence = 2 ^ 24

abbrev pub padding_granularity : ℕ
padding_granularity = 32

pub record Nonce : Type 0 where
  pub nonce : ℕ

pub record Crypter : Type 0 where
  pub read_key : Bytes
  pub write_key : Bytes
  pub read_nonce : Nonce
  pub write_nonce : Nonce

unfoldable pub new : Bytes → Bytes → Crypter
new read_key write_key = record {
  read_key = read_key;
  write_key = write_key;
  read_nonce = record { nonce = 0 };
  write_nonce = record { nonce = 0 };
}

-- of a u32
unfoldable pub to_be_bytes : ℕ → Bytes
to_be_bytes n = (n / 2 ^ 24 % 256) ∷ (n / 2 ^ 16 % 256) ∷ (n / 2 ^ 8 % 256) ∷ (n % 256) ∷ []

unfoldable pub next : Nonce → Run Bytes × Nonce
unfolding to_be_bytes
next n =
    if ltb max_sequence n.nonce
    then (err decrypt_failed, n)
    else (ok (replicate (nonce_len - 4) 0 ++ to_be_bytes n.nonce), record { nonce = suc n.nonce })

-- The mask that the code computes clears the five lowest bits.
unfoldable pub padded_size : ℕ → ℕ
padded_size n = (n + 1 + padding_granularity - 1) / padding_granularity * padding_granularity

-- `resize`, then the count of the zeros in the last byte
unfoldable pub pad : Bytes → Bytes
unfolding padded_size
pad plaintext =
    let size = padded_size (length plaintext) in
    set (plaintext ++ replicate (size - length plaintext) 0) (size - 1)
      ((size - length plaintext - 1) % 256)

unfoldable pub unpad : Bytes → Run Bytes
unpad plaintext =
    let last = get_or plaintext (length plaintext - 1) 0 in
    if is_empty plaintext || leb (length plaintext) last
    then err decryption_padding
    else ok (take (length plaintext - last - 1) plaintext)

module _ {Scalar Point : Type 0} (c : Crypto Scalar Point) where
  unfoldable pub encrypt : Bytes → Crypter → Run Bytes × Crypter
  unfolding next pad aes_256_gcm_seal_in_place
  encrypt plaintext s =
      if ltb (2 ^ 28) (length plaintext)
      then (err (data_too_large (length plaintext)), s)
      else (let (nonce, write_nonce) = next s.write_nonce in
          (
            (nonce >>= λ n. aes_256_gcm_seal_in_place c s.write_key n [] (pad plaintext)),
            record s { write_nonce = write_nonce },
          ))

  unfoldable pub decrypt : Bytes → Crypter → Run Bytes × Crypter
  unfolding next unpad aes_256_gcm_open_in_place
  decrypt ciphertext s =
      let (nonce, read_nonce) = next s.read_nonce in
      (
        (nonce >>= λ n.
            (or_error decrypt_failed (aes_256_gcm_open_in_place c s.read_key n [] ciphertext)
              >>= λ p. unpad p)),
        record s { read_nonce = read_nonce },
      )
