-- ===== src/Hpke/Tests.antt =====
-- The encryptors over a suite that is simple enough to run, and the result on it applied.
use not_an_oak_fork.Base.{
  ℕ, ◌+◌, ◌≡◌, refl, some, none, [], ◌∷◌, replicate, length-replicate, arith, err,
}
use not_an_oak_fork.Ciphers.{sum, tag, open_tagged, first_byte, open_tagged_self}
use not_an_oak_fork.Hpke.Contexts.{
  Suite, IsSuite, sized, deserialize, deserialize_nonce, recipient_open, aead_decrypt,
}
use not_an_oak_fork.Hpke.Encryptor.{ServerEncryptor, decrypt_inner}
use not_an_oak_fork.Hpke.Exchange.{Message, Exchange, request-Exchange}

-- keys and contexts are numbers
abbrev toy : Suite ℕ ℕ ℕ ℕ
toy = record {
  public_key = λ p. p;
  private_to_bytes = λ p. p ∷ [];
  private_from_bytes = first_byte;
  public_to_bytes = λ p. p ∷ [];
  public_from_bytes = first_byte;
  encapped_to_bytes = λ e. e ∷ [];
  encapped_from_bytes = first_byte;
  setup_sender = λ random p info. some (sum random, p + sum random);
  setup_receiver = λ p e info. some (p + e);
  export = λ c label n. some (replicate n (c + sum label));
  encrypt = λ key nonce msg aad. some (tag key nonce aad ∷ msg);
  decrypt = λ key nonce o aad. open_tagged (tag key nonce aad) o;
}

toy-IsSuite : IsSuite ℕ ℕ ℕ ℕ toy
toy-IsSuite = record {
  public_from_bytes-public_to_bytes = λ p. refl;
  encapped_from_bytes-encapped_to_bytes = λ e. refl;
  setup = λ random p info. (
    sum random,
    p + sum random,
    p + sum random,
    refl,
    refl,
    λ label n h. record {
      secret = replicate n (p + sum random + sum label);
      length-secret = length-replicate n _;
      sent = refl;
      received = refl;
    },
  );
  encrypt-some = λ key nonce msg aad hk hn hm ha.
      (tag key nonce aad ∷ msg, refl, open_tagged_self (tag key nonce aad) msg);
}

abbrev hello : Message
hello = record { nonce = replicate 12 1; text = 104 ∷ 105 ∷ []; associated_data = [] }

abbrev reply : Message
reply = record { nonce = replicate 12 2; text = []; associated_data = 7 ∷ [] }

abbrev again : Message
again = record { nonce = replicate 12 3; text = 104 ∷ []; associated_data = [] }

request-Exchange_example : Exchange toy 5 (1 ∷ 2 ∷ []) hello reply again
request-Exchange_example =
    request-Exchange toy toy-IsSuite 5 (1 ∷ 2 ∷ []) hello reply again
      (refl, omega arith, omega arith) (refl, omega arith, omega arith)
      (refl, omega arith, omega arith)

-- A key that is too short is refused.
short_key :
    deserialize record { request_key = replicate 32 0; response_key = replicate 31 0 }
    ≡ err ("incorrect response key size, expected 32, got " ∷ [])
unfolding deserialize sized
short_key = refl

abbrev server : ServerEncryptor
server = record {
  recipient_context = record { request_key = replicate 32 4; response_key = replicate 32 5 };
}

-- The associated data is not that which was sealed.
tampered :
    decrypt_inner toy
      record {
        encrypted_message = some record {
          nonce = replicate 12 1;
          ciphertext = tag (replicate 32 4) (replicate 12 1) (9 ∷ []) ∷ 104 ∷ [];
          associated_data = 8 ∷ [];
        };
        serialized_encapsulated_public_key = none;
      }
      server
    ≡ err (
        "couldn't decrypt request" ∷ "couldn't decrypt request message" ∷ "couldn't decrypt data: "
        ∷ [])
unfolding decrypt_inner deserialize_nonce sized recipient_open aead_decrypt
tampered = refl
