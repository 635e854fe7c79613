-- ===== src/Session/Agree.antt =====
-- The two sides of oak_crypto/src/noise_handshake agree on the keys.
use not_an_oak_fork.Base.{
  ℕ, ◌≡◌, refl, inl, inr, Bool-cases, true, false, ltb, leb, ◌==◌, Option, some, none, [], ◌∷◌,
  ◌++◌, length, take, drop, length-append, take-append, drop-append, arith,
}
use not_an_oak_fork.Session.Run.{Run, ok}
use not_an_oak_fork.Session.Crypto.{Bytes, Crypto, IsCrypto, generate, scalar_try_from, nonzero}
use not_an_oak_fork.Session.Noise.{Noise, nk, nn, new, mix_hash, decrypt_and_hash}
use not_an_oak_fork.Session.Crypter.{Nonce, Crypter}
use not_an_oak_fork.Session.Crypter
use not_an_oak_fork.Session.Handshake.{
  Response, HandshakeInitiator, new_nk, new_nn, mix_identity, mix_shared, build_initial_message,
  process_response, finish_response, respond_nk, respond_nn,
}
use not_an_oak_fork.Session.NoiseLaws.{
  mix_key-Ready, length-mix_hash, traffic_keys-ok, encrypt_and_hash-Follows, public_key,
  compute_public_key-ok, p256_scalar_mult-agree,
}

-- What one side writes, the other one reads: the same key, and the same nonce, and the key is one of
-- AES-256.
pub record Feeds (writer reader : Crypter) : Type 0 where
  pub same_key : writer.write_key ≡ reader.read_key
  pub same_nonce : writer.write_nonce ≡ reader.read_nonce
  pub length-key : length writer.write_key ≡ 32

-- Two sides that have not said anything yet.
pub record Paired (client server : Crypter) : Type 0 where
  pub client_first : client.write_nonce.nonce ≡ 0
  pub server_first : server.write_nonce.nonce ≡ 0
  pub upstream : Feeds client server
  pub downstream : Feeds server client

pub new-Paired :
    (k1 k2 : Bytes)
    → length k1 ≡ 32
    → length k2 ≡ 32
    → Paired (Crypter.new k2 k1) (Crypter.new k1 k2)
unfolding Crypter.new
new-Paired k1 k2 h1 h2 = record {
  client_first = refl;
  server_first = refl;
  upstream = record { same_key = refl; same_nonce = refl; length-key = h1 };
  downstream = record { same_key = refl; same_nonce = refl; length-key = h2 };
}

append-cut :
    (n : ℕ) (xs ys : Bytes)
    → length xs ≡ n
    → (take n (xs ++ ys) ≡ xs)
      × (drop n (xs ++ ys) ≡ ys)
      × (ltb (length (xs ++ ys)) n ≡ false)
      × (leb n (length (xs ++ ys)) ≡ true)
append-cut n xs ys h =
    let m = length-append xs ys in
    let lo : ltb (length (xs ++ ys)) n ≡ false = ground arith in
    let hi : leb n (length (xs ++ ys)) ≡ true = ground arith in
    rw (← h) (take-append xs ys, drop-append xs ys, rw h lo, rw h hi)

module _ {Scalar Point : Type 0} (c : Crypto Scalar Point) (l : IsCrypto Scalar Point c) where
  -- The response to the message of an initiator, and what the initiator makes of it.
  pub record Answers (i : HandshakeInitiator Scalar) (answer : Run Response) : Type 0 where
    pub server : Response
    pub client : Crypter
    pub after : HandshakeInitiator Scalar
    pub answered : answer ≡ ok server
    pub processed : process_response c server.response i ≡ ok (server.handshake_hash, client, after)
    pub paired : Paired client server.crypter

  finish_response-Answers :
      (n : Noise) (t : Scalar) (i : HandshakeInitiator Scalar) (ct : Bytes)
      → c.is_zero t ≡ false
      → i.ephemeral_priv_key ≡ t
      → decrypt_and_hash c ct n ≡ ok ([], i.noise)
      → length i.noise.h ≡ 32
      → Answers i (finish_response c n (public_key c l t ++ ct) (public_key c l t))
  unfolding finish_response generate process_response
  finish_response-Answers n t i ct nz et d hh =
      let (s, gs, sz) = l.from_repr-some in
      let ps = public_key c l s in
      let (_, rest, _, _) = append-cut 65 (public_key c l t) ct (l.length-to_encoded_point t nz) in
      let (n2, e2, r2) =
        mix_key-Ready c l ps (mix_hash c ps i.noise) (length-mix_hash c l ps i.noise) in
      let (b, m1, m2) = p256_scalar_mult-agree c l t s nz sz in
      let (n3, e3, r3) = mix_key-Ready c l b n2 r2.length-h in
      let f = encrypt_and_hash-Follows c l n3 [] r3 (omega arith) in
      let (k1, k2, ek, h1, h2) = traffic_keys-ok c l f.after in
      let (front, back, _, long) = append-cut 65 ps f.ciphertext (l.length-to_encoded_point s sz) in
      record {
        server = record {
          crypter = Crypter.new k1 k2;
          handshake_hash = f.after.h;
          response = ps ++ f.ciphertext;
        };
        client = Crypter.new k2 k1;
        after = record i { noise = f.after };
        answered = rw rest (
            rw d (
              rw gs (
                rw (compute_public_key-ok c l s sz)
                  (rw e2 (rw m1 (rw e3 (rw f.encrypted (rw ek refl))))))));
        processed =
            rw long
              (rw front (rw back (rw et (rw m2 (rw e2 (rw e3 (rw f.decrypted (rw ek refl))))))));
        paired = new-Paired k1 k2 h1 h2;
      }

  -- The initiator that `start` makes writes a message, and answers it with `respond`.
  pub record Established (start : Run (HandshakeInitiator Scalar)) (respond : Bytes → Run Response)
      : Type 0 where
    pub initiator : HandshakeInitiator Scalar
    pub message : Bytes
    pub waiting : HandshakeInitiator Scalar
    pub started : start ≡ ok initiator
    pub written : build_initial_message c initiator ≡ ok (message, waiting)
    pub answers : Answers waiting (respond message)

  pub handshake_nn-Established : Established (new_nn c) (respond_nn c)
  unfolding new_nn generate build_initial_message respond_nn mix_identity mix_shared
  handshake_nn-Established =
      let (t, gt, tz) = l.from_repr-some in
      let pt = public_key c l t in
      let n0 = mix_hash c pt (mix_hash c (0 ∷ []) (new nn)) in
      let (n1, e1, r1) = mix_key-Ready c l pt n0 (length-mix_hash c l pt _) in
      let f = encrypt_and_hash-Follows c l n1 [] r1 (omega arith) in
      let i : HandshakeInitiator Scalar = record {
        noise = new nn;
        identity_pub_key = none;
        ephemeral_priv_key = t;
      } in
      let w : HandshakeInitiator Scalar = record i { noise = f.after } in
      let (front, _, short, _) = append-cut 65 pt f.ciphertext (l.length-to_encoded_point t tz) in
      record {
        initiator = i;
        message = pt ++ f.ciphertext;
        waiting = w;
        started = rw gt refl;
        written = rw (compute_public_key-ok c l t tz) (rw e1 (rw f.encrypted refl));
        answers = rw short (
            rw front (
              rw e1
                (finish_response-Answers n1 t w f.ciphertext tz refl f.decrypted f.length-after)));
      }

  nonzero-some : (o : Option Scalar) (s : Scalar) → nonzero c o ≡ some s → c.is_zero s ≡ false
  unfolding nonzero
  nonzero-some none s e = cc
  nonzero-some (some t) s e = elim (Bool-cases (c.is_zero t)) [
    | inl z ↦ absurd (let q = rw z at e in cc)
    | inr z ↦ let q = rw z at e in cc
  ]

  scalar_try_from-nonzero :
      (bs : Bytes) (s : Scalar) → scalar_try_from c bs ≡ some s → c.is_zero s ≡ false
  unfolding scalar_try_from
  scalar_try_from-nonzero bs s e = elim (Bool-cases (length bs == 32)) [
    | inl z ↦ nonzero-some (c.from_repr bs) s (rw z at e)
    | inr z ↦ absurd (let q = rw z at e in cc)
  ]

  pub handshake_nk-Established :
      (private_key : Bytes) (s : Scalar)
      → scalar_try_from c private_key ≡ some s
      → Established (new_nk c (public_key c l s)) (respond_nk c private_key)
  unfolding new_nk generate build_initial_message respond_nk mix_identity mix_shared
  handshake_nk-Established private_key s es =
      let sz = scalar_try_from-nonzero private_key s es in
      let ps = public_key c l s in
      let (t, gt, tz) = l.from_repr-some in
      let pt = public_key c l t in
      let n0 = mix_hash c pt (mix_hash c ps (mix_hash c (0 ∷ []) (new nk))) in
      let (n1, e1, r1) = mix_key-Ready c l pt n0 (length-mix_hash c l pt _) in
      let (b, m1, m2) = p256_scalar_mult-agree c l s t sz tz in
      let (n2, e2, r2) = mix_key-Ready c l b n1 r1.length-h in
      let f = encrypt_and_hash-Follows c l n2 [] r2 (omega arith) in
      let i : HandshakeInitiator Scalar = record {
        noise = new nk;
        identity_pub_key = some ps;
        ephemeral_priv_key = t;
      } in
      let w : HandshakeInitiator Scalar = record i { noise = f.after } in
      let (front, _, short, _) = append-cut 65 pt f.ciphertext (l.length-to_encoded_point t tz) in
      record {
        initiator = i;
        message = pt ++ f.ciphertext;
        waiting = w;
        started = rw gt refl;
        written = rw (compute_public_key-ok c l t tz) (rw e1 (rw m1 (rw e2 (rw f.encrypted refl))));
        answers = rw short (
            rw front (
              rw es (
                rw (compute_public_key-ok c l s sz) (
                  rw e1 (
                    rw m2 (
                      rw e2 (
                        finish_response-Answers n2 t w f.ciphertext tz refl f.decrypted
                          f.length-after)))))));
      }
