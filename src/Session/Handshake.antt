-- ===== src/Session/Handshake.antt =====
-- The two sides of the handshake: oak_crypto/src/noise_handshake/client.rs and the functions
-- `respond_nk` and `respond_nn` of oak_crypto/src/noise_handshake/mod.rs.
use not_an_oak_fork.Base.{
  not, if◌then◌else◌, ltb, leb, Option, some, none, [], ◌∷◌, ◌++◌, length, take, drop, is_empty,
}
use not_an_oak_fork.Session.Run.{
  Run, ok, err, panic, ◌>>=◌, unwrap, or_error, checked, invalid_handshake, invalid_private_key,
}
use not_an_oak_fork.Session.Crypto.{
  Bytes, Crypto, p256_x962_len, generate, compute_public_key, scalar_try_from, p256_scalar_mult,
}
use not_an_oak_fork.Session.Noise.{
  nk, nn, Noise, new, mix_hash, mix_key, encrypt_and_hash, decrypt_and_hash, traffic_keys,
}
use not_an_oak_fork.Session.Crypter.{Crypter}
use not_an_oak_fork.Session.Crypter

pub record Response : Type 0 where
  pub crypter : Crypter
  pub handshake_hash : Bytes
  pub response : Bytes

module _ (Scalar : Type 0) where
  pub record HandshakeInitiator : Type 0 where
    pub noise : Noise
    pub identity_pub_key : Option Bytes
    pub ephemeral_priv_key : Scalar

module _ {Scalar Point : Type 0} (c : Crypto Scalar Point) where
  unfoldable pub new_nk : Bytes → Run (HandshakeInitiator Scalar)
  unfolding generate
  new_nk peer_public_key = do
    key ← generate c
    ok record { noise = new nk; identity_pub_key = some peer_public_key; ephemeral_priv_key = key }

  unfoldable pub new_nn : Run (HandshakeInitiator Scalar)
  unfolding generate
  new_nn = do
    key ← generate c
    ok record { noise = new nn; identity_pub_key = none; ephemeral_priv_key = key }

  unfoldable pub mix_identity : Option Bytes → Noise → Noise
  mix_identity none n = n
  mix_identity (some identity) n = mix_hash c identity n

  unfoldable pub mix_shared : Option Bytes → Scalar → Noise → Run Noise
  mix_shared none key n = ok n
  mix_shared (some identity) key n = do
    es_ecdh ← p256_scalar_mult c key identity
    es_ecdh_bytes ← unwrap es_ecdh
    mix_key c es_ecdh_bytes n

  unfoldable pub build_initial_message :
      HandshakeInitiator Scalar → Run (Bytes × HandshakeInitiator Scalar)
  unfolding mix_identity mix_shared
  build_initial_message i = do
    let n0 = mix_identity i.identity_pub_key (mix_hash c (0 ∷ []) i.noise)
    ephemeral_pub_key ← compute_public_key c i.ephemeral_priv_key
    n1 ← mix_key c ephemeral_pub_key (mix_hash c ephemeral_pub_key n0)
    n2 ← mix_shared i.identity_pub_key i.ephemeral_priv_key n1
    (ciphertext, n3) ← encrypt_and_hash c [] n2
    ok (ephemeral_pub_key ++ ciphertext, record i { noise = n3 })

  -- `unwrap` of the result: an error is a panic.
  abbrev pub decrypted : Run (Bytes × Noise) → Run (Bytes × Noise)
  decrypted (ok a) = ok a
  decrypted (err e) = panic
  decrypted panic = panic

  -- The response is cut into the key of the peer and the ciphertext.
  unfoldable pub process_response :
      Bytes → HandshakeInitiator Scalar → Run (Bytes × Crypter × HandshakeInitiator Scalar)
  process_response response i = do
    peer_public_key ← checked (leb p256_x962_len (length response)) (take p256_x962_len response)
    let ciphertext = drop p256_x962_len response
    ee_ecdh ← p256_scalar_mult c i.ephemeral_priv_key peer_public_key
    ee_ecdh_bytes ← unwrap ee_ecdh
    n1 ← mix_key c peer_public_key (mix_hash c peer_public_key i.noise)
    n2 ← mix_key c ee_ecdh_bytes n1
    (plaintext, n3) ← decrypted (decrypt_and_hash c ciphertext n2)
    all_read ← checked {0} (is_empty plaintext) tt
    (write_key, read_key) ← traffic_keys c n3
    ok (n3.h, Crypter.new read_key write_key, record i { noise = n3 })

  unfoldable pub finish_response : Noise → Bytes → Bytes → Run Response
  finish_response n0 in_data peer_pub = do
    (plaintext, n1) ← decrypt_and_hash c (drop p256_x962_len in_data) n0
    if not (is_empty plaintext) then err invalid_handshake else (do
      ephemeral_priv ← generate c
      ephemeral_pub ← compute_public_key c ephemeral_priv
      n2 ← mix_key c ephemeral_pub (mix_hash c ephemeral_pub n1)
      ee_ecdh ← p256_scalar_mult c ephemeral_priv peer_pub
      ee_ecdh_bytes ← or_error invalid_handshake ee_ecdh
      n3 ← mix_key c ee_ecdh_bytes n2
      (response_ciphertext, n4) ← encrypt_and_hash c [] n3
      (read_key, write_key) ← traffic_keys c n4
      ok record {
        crypter = Crypter.new read_key write_key;
        handshake_hash = n4.h;
        response = ephemeral_pub ++ response_ciphertext;
      })

  unfoldable pub respond_nk : Bytes → Bytes → Run Response
  unfolding finish_response
  respond_nk identity_private_key in_data =
      if ltb (length in_data) p256_x962_len then err invalid_handshake else (do
        let n0 = mix_hash c (0 ∷ []) (new nk)
        identity_scalar ← or_error invalid_private_key (scalar_try_from c identity_private_key)
        identity_pub ← compute_public_key c identity_scalar
        let peer_pub = take p256_x962_len in_data
        n1 ← mix_key c peer_pub (mix_hash c peer_pub (mix_hash c identity_pub n0))
        es_ecdh ← p256_scalar_mult c identity_scalar peer_pub
        es_ecdh_bytes ← or_error invalid_handshake es_ecdh
        n2 ← mix_key c es_ecdh_bytes n1
        finish_response n2 in_data peer_pub)

  unfoldable pub respond_nn : Bytes → Run Response
  unfolding finish_response
  respond_nn in_data = if ltb (length in_data) p256_x962_len then err invalid_handshake else (do
    let n0 = mix_hash c (0 ∷ []) (new nn)
    let peer_pub = take p256_x962_len in_data
    n1 ← mix_key c peer_pub (mix_hash c peer_pub n0)
    finish_response n1 in_data peer_pub)
