-- ===== src/Session/Talk.antt =====
-- What two sides say to each other after the handshake of oak_crypto/src/noise_handshake, in any
-- order, is what the other one reads.
use not_an_oak_fork.Base.{
  ℕ, suc, ◌+◌, ◌^◌, ◌≤◌, ◌≡◌, refl, ap, some, List, [], ◌∷◌, length, arith, map,
}
use not_an_oak_fork.Session.Run.{Run, ok, err, panic, ◌>>=◌}
use not_an_oak_fork.Session.Crypto.{
  Bytes, Crypto, IsCrypto, aes_256_gcm_seal_in_place, aes_256_gcm_open_in_place, scalar_try_from,
}
use not_an_oak_fork.Session.Crypter.{Crypter, pad, encrypt, decrypt}
use not_an_oak_fork.Session.CrypterLaws.{
  next-ok, nonce_of, length-nonce_of, ltb-false, padded_size-bounds, length-pad, unpad-pad,
}
use not_an_oak_fork.Session.Handshake.{
  Response, HandshakeInitiator, new_nk, new_nn, build_initial_message, process_response, respond_nk,
  respond_nn,
}
use not_an_oak_fork.Session.NoiseLaws.{public_key}
use not_an_oak_fork.Session.Agree.{
  Feeds, Established, handshake_nn-Established, handshake_nk-Established,
}

-- A message, of the client or of the server.
pub data Saying : Type 0 where
  from_client : Bytes → Saying
  from_server : Bytes → Saying

abbrev pub text : Saying → Bytes
text (from_client p) = p
text (from_server p) = p

abbrev pub by_client : List Saying → ℕ
by_client [] = 0
by_client (from_client p ∷ ms) = suc (by_client ms)
by_client (from_server p ∷ ms) = by_client ms

abbrev pub by_server : List Saying → ℕ
by_server [] = 0
by_server (from_client p ∷ ms) = by_server ms
by_server (from_server p ∷ ms) = suc (by_server ms)

-- No message is longer than 256 MiB.
abbrev pub AllShort : List Saying → Type 0
AllShort [] = Unit {0}
AllShort (m ∷ ms) = (length (text m) ≤ 2 ^ 28) × AllShort ms

module _ {Scalar Point : Type 0} (c : Crypto Scalar Point) where
  unfoldable pub pass_on : Run Bytes × Crypter → Crypter → Run Bytes × Crypter × Crypter
  pass_on (ok ciphertext, w) r = let (got, r') = decrypt c ciphertext r in (got, w, r')
  pass_on (err e, w) r = (err e, w, r)
  pass_on (panic, w) r = (panic, w, r)

  -- One side encrypts, the other one decrypts what it gets.
  unfoldable pub deliver : Bytes → Crypter → Crypter → Run Bytes × Crypter × Crypter
  unfolding pass_on
  deliver p writer reader = pass_on (encrypt c p writer) reader

  -- The messages as the other side of each reads them.
  unfoldable pub talk : List Saying → Crypter → Crypter → Run (List Bytes)
  unfolding deliver
  talk [] client server = ok []
  talk (from_client p ∷ ms) client server =
      let (got, client', server') = deliver p client server in
      let rest = talk ms client' server' in got >>= λ q. rest >>= λ qs. ok (q ∷ qs)
  talk (from_server p ∷ ms) client server =
      let (got, server', client') = deliver p server client in
      let rest = talk ms client' server' in got >>= λ q. rest >>= λ qs. ok (q ∷ qs)

  module _ (l : IsCrypto Scalar Point c) where
    abbrev wrote : Crypter → Crypter
    wrote s = record s { write_nonce = record { nonce = suc s.write_nonce.nonce } }

    abbrev has_read : Crypter → Crypter
    has_read s = record s { read_nonce = record { nonce = suc s.read_nonce.nonce } }

    encrypt-ok :
        (p o : Bytes) (w : Crypter)
        → w.write_nonce.nonce ≤ 2 ^ 24
        → length p ≤ 2 ^ 28
        → c.encrypt_in_place w.write_key (nonce_of w.write_nonce) [] (pad p) ≡ some o
        → encrypt c p w ≡ (ok o, wrote w)
    unfolding encrypt aes_256_gcm_seal_in_place
    encrypt-ok p o w room short e =
        rw (ltb-false (2 ^ 28) (length p) short) (rw (next-ok w.write_nonce room) (rw e refl))

    decrypt-ok :
        (p o : Bytes) (w r : Crypter)
        → Feeds w r
        → w.write_nonce.nonce ≤ 2 ^ 24
        → c.decrypt_in_place w.write_key (nonce_of w.write_nonce) [] o ≡ some (pad p)
        → decrypt c o r ≡ (ok p, has_read r)
    unfolding decrypt aes_256_gcm_open_in_place
    decrypt-ok p o w r f room d =
        rw (next-ok r.read_nonce (rw f.same_nonce at room))
          (rw (rw (f.same_key, f.same_nonce) at d) (rw (unpad-pad p) refl))

    deliver-ok :
        (p : Bytes) (w r : Crypter)
        → Feeds w r
        → w.write_nonce.nonce ≤ 2 ^ 24
        → length p ≤ 2 ^ 28
        → deliver p w r ≡ (ok p, wrote w, has_read r)
    unfolding deliver pass_on
    deliver-ok p w r f room short =
        let (_, hi) = padded_size-bounds (length p) in
        let (o, e, d) =
          l.encrypt_in_place-some w.write_key (nonce_of w.write_nonce) [] (pad p) f.length-key
            (length-nonce_of w.write_nonce) (omega arith) (omega (arith, length-pad p)) in
        rw (encrypt-ok p o w room short e) (rw (decrypt-ok p o w r f room d) refl)

    Feeds-wrote : (w r : Crypter) → Feeds w r → Feeds (wrote w) (has_read r)
    Feeds-wrote w r f = record {
      same_key = f.same_key;
      same_nonce = ap (λ n. record { nonce = suc n.nonce }) f.same_nonce;
      length-key = f.length-key;
    }

    Feeds-back : (w r : Crypter) → Feeds w r → Feeds (has_read w) (wrote r)
    Feeds-back w r f = record {
      same_key = f.same_key;
      same_nonce = f.same_nonce;
      length-key = f.length-key;
    }

    talk-Delivers :
        (ms : List Saying) (client server : Crypter)
        → Feeds client server
        → Feeds server client
        → client.write_nonce.nonce + by_client ms ≤ 2 ^ 24 + 1
        → server.write_nonce.nonce + by_server ms ≤ 2 ^ 24 + 1
        → AllShort ms
        → talk ms client server ≡ ok (map text ms)
    unfolding talk
    talk-Delivers [] client server f g h k a = refl
    talk-Delivers (from_client p ∷ ms) client server f g h k (short, a) =
        let rest =
          talk-Delivers ms (wrote client) (has_read server) (Feeds-wrote client server f)
            (Feeds-back server client g) (omega arith) (omega arith) a in
        rw (deliver-ok p client server f (omega arith) short) (rw rest refl)
    talk-Delivers (from_server p ∷ ms) client server f g h k (short, a) =
        let rest =
          talk-Delivers ms (has_read client) (wrote server) (Feeds-back client server f)
            (Feeds-wrote server client g) (omega arith) (omega arith) a in
        rw (deliver-ok p server client g (omega arith) short) (rw rest refl)

  -- The client that `start` makes and the server that answers with `respond` come to an end of the
  -- handshake with one hash, and read what the other one says.
  pub record Session (start : Run (HandshakeInitiator Scalar)) (respond : Bytes → Run Response)
      (ms : List Saying) : Type 0 where
    pub initiator : HandshakeInitiator Scalar
    pub message : Bytes
    pub waiting : HandshakeInitiator Scalar
    pub server : Response
    pub client : Crypter
    pub after : HandshakeInitiator Scalar
    pub started : start ≡ ok initiator
    pub written : build_initial_message c initiator ≡ ok (message, waiting)
    pub answered : respond message ≡ ok server
    pub processed :
        process_response c server.response waiting ≡ ok (server.handshake_hash, client, after)
    pub delivered : talk ms client server.crypter ≡ ok (map text ms)

  module _ (l : IsCrypto Scalar Point c) where
    Established-Session :
        (start : Run (HandshakeInitiator Scalar)) (respond : Bytes → Run Response)
        (ms : List Saying)
        → Established c l start respond
        → by_client ms ≤ 2 ^ 24 + 1
        → by_server ms ≤ 2 ^ 24 + 1
        → AllShort ms
        → Session start respond ms
    Established-Session start respond ms e h k a =
        let w = e.answers in
        let p = w.paired in
        record {
          initiator = e.initiator;
          message = e.message;
          waiting = e.waiting;
          server = w.server;
          client = w.client;
          after = w.after;
          started = e.started;
          written = e.written;
          answered = w.answered;
          processed = w.processed;
          delivered =
              talk-Delivers l ms w.client w.server.crypter p.upstream p.downstream
                (omega (arith, p.client_first)) (omega (arith, p.server_first)) a;
        }

    -- Over ciphers, hashes and a curve that do as documented, a private key that is valid, and
    -- messages of at most 256 MiB each, at most 2^24 + 1 from either side, in any order: a
    -- client made by `new_nk` with the public key of that private key, whose server answers
    -- with `respond_nk`, and one made by `new_nn`, whose server answers with `respond_nn`, end
    -- the handshake without an error or a panic and with the hash of their server, and of what
    -- one side then encrypts the other one decrypts the same messages.
    pub handshake-Session :
        (private_key : Bytes) (s : Scalar) (ms : List Saying)
        → scalar_try_from c private_key ≡ some s
        → by_client ms ≤ 2 ^ 24 + 1
        → by_server ms ≤ 2 ^ 24 + 1
        → AllShort ms
        → Session (new_nk c (public_key c l s)) (respond_nk c private_key) ms
          × Session (new_nn c) (respond_nn c) ms
    handshake-Session private_key s ms e h k a = (
      Established-Session _ _ ms (handshake_nk-Established c l private_key s e) h k a,
      Established-Session _ _ ms (handshake_nn-Established c l) h k a,
    )
