-- ===== src/Session/Tests.antt =====
-- The handshake over ciphers and curves that are simple enough to run, and the results on it
-- applied.
use native.Mathlib.Nat.{mul_comm}
use not_an_oak_fork.Base.{
  ℕ, ◌+◌, ◌*◌, ◌^◌, ◌≡◌, refl, ap, ◌≢◌, ◌==◌, some, List, [], ◌∷◌, ◌++◌, replicate,
  length-replicate, arith,
}
use not_an_oak_fork.Ciphers.{sum, tag, open_tagged, first_byte, open_tagged_self}
use not_an_oak_fork.Session.Run.{ok, err, decrypt_failed, decryption_padding}
use not_an_oak_fork.Session.Crypto.{
  Bytes, Crypto, IsCrypto, scalar_try_from, nonzero, aes_256_gcm_open_in_place,
}
use not_an_oak_fork.Session.Crypter.{Crypter, next, to_be_bytes, unpad, encrypt, decrypt}
use not_an_oak_fork.Session.Handshake.{new_nk, new_nn, respond_nk, respond_nn}
use not_an_oak_fork.Session.NoiseLaws.{public_key}
use not_an_oak_fork.Session.Talk.{Saying, from_client, from_server, Session, handshake-Session}
use not_an_oak_fork.Session.Fresh.{Steps, encrypts, decrypts, done, more, encrypt-fresh}

-- scalars and points are numbers
abbrev toy : Crypto ℕ ℕ
toy = record {
  sha256 = λ bs. sum bs ∷ replicate 31 0;
  expand = λ salt ikm info n. some (replicate n (sum salt + sum ikm + 1));
  encrypt_in_place = λ k nonce aad p. some (tag k nonce aad ∷ p);
  decrypt_in_place = λ k nonce aad o. open_tagged (tag k nonce aad) o;
  from_repr = first_byte;
  to_repr = λ s. s ∷ replicate 31 0;
  is_zero = λ s. s == 0;
  mul_by_generator = λ s. s;
  mul = λ p s. p * s;
  to_encoded_point = λ p. p ∷ replicate 64 0;
  from_encoded_point = first_byte;
  x = λ p. some (p ∷ replicate 31 0);
}

toy-IsCrypto : IsCrypto ℕ ℕ toy
toy-IsCrypto = record {
  length-sha256 = λ bs. refl;
  expand-some = λ salt ikm info n h. (_, refl, length-replicate n _);
  encrypt_in_place-some = λ k nonce aad p hk hn ha hp.
      (tag k nonce aad ∷ p, refl, open_tagged_self (tag k nonce aad) p);
  from_repr-some = (1, refl, refl);
  length-to_encoded_point = λ s h. refl;
  from_encoded_point-to_encoded_point = λ s h. refl;
  x-mul = λ s t hs ht. (_, refl, ap (λ n. some (n ∷ replicate 31 0)) (mul_comm t s), refl);
}

-- the private key 5
abbrev key_five : Bytes
key_five = 5 ∷ replicate 31 0

abbrev sayings : List Saying
sayings = from_client (1 ∷ 2 ∷ 3 ∷ 4 ∷ []) ∷ from_client [] ∷ from_server (7 ∷ []) ∷ []

five-try : scalar_try_from toy key_five ≡ some 5
unfolding scalar_try_from nonzero
five-try = refl

handshake-Session_example :
    Session toy (new_nk toy (public_key toy toy-IsCrypto 5)) (respond_nk toy key_five) sayings
    × Session toy (new_nn toy) (respond_nn toy) sayings
handshake-Session_example =
    handshake-Session toy toy-IsCrypto key_five 5 sayings five-try (omega arith) (omega arith)
      (omega arith, (omega arith, (omega arith, tt)))

abbrev writer : Crypter
writer = record {
  read_key = replicate 32 1;
  write_key = replicate 32 2;
  read_nonce = record { nonce = 0 };
  write_nonce = record { nonce = 255 };
}

abbrev used_up : Crypter
used_up = record writer { write_nonce = record { nonce = 2 ^ 24 + 1 } }

-- The calls that follow a first message: one that fails to decrypt, and one more message.
abbrev after_more : Crypter
after_more = (encrypt toy (9 ∷ []) (decrypt toy (3 ∷ []) (encrypt toy (1 ∷ []) writer).1).1).1

after_more-nonce : (next after_more.write_nonce).0 ≡ ok (replicate 8 0 ++ to_be_bytes 257)
unfolding next encrypt decrypt
after_more-nonce = refl

writer-nonce : (next writer.write_nonce).0 ≡ ok (replicate 8 0 ++ to_be_bytes 255)
unfolding next
writer-nonce = refl

after_more-Steps : Steps toy (encrypt toy (1 ∷ []) writer).1 after_more
after_more-Steps = more _ _ (more _ _ done (decrypts (3 ∷ []))) (encrypts (9 ∷ []))

encrypt-fresh_example :
    (after_more.write_key ≡ writer.write_key)
    × ((replicate 8 0 ++ to_be_bytes 255) ≢ (replicate 8 0 ++ to_be_bytes 257))
encrypt-fresh_example =
    encrypt-fresh toy (1 ∷ []) writer after_more _ _ (omega arith) writer-nonce after_more-Steps
      after_more-nonce

-- The counter has come to its end.
nonces_used_up : encrypt toy (1 ∷ []) used_up ≡ (err decrypt_failed, used_up)
unfolding encrypt next
nonces_used_up = refl

-- A message that was not sent fails, and uses a nonce up.
forged :
    decrypt toy (0 ∷ []) writer
    ≡ (err decrypt_failed, record writer { read_nonce = record { nonce = 1 } })
unfolding decrypt next aes_256_gcm_open_in_place to_be_bytes
forged = refl

-- The last byte counts more zeros than there are bytes.
bad_padding : unpad (1 ∷ 2 ∷ []) ≡ err decryption_padding
unfolding unpad
bad_padding = refl
