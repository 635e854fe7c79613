-- ===== src/Hpke/Contexts.antt =====
-- oak_crypto/src/hpke: the packages hpke and aes_gcm, which are parameters, and the two contexts of
-- a session.
use not_an_oak_fork.Base.{
  ℕ, ◌*◌, ◌^◌, ◌≤◌, ◌≡◌, Option, some, List, length, codes, if◌then◌else◌, ◌==◌, Result, ok, bail,
  with_context, context, ◌>>=◌, String,
}

abbrev pub Bytes : Type 0
Bytes = List ℕ

abbrev pub aead_algorithm_key_size_bytes : ℕ
aead_algorithm_key_size_bytes = 32

abbrev pub aead_nonce_size_bytes : ℕ
aead_nonce_size_bytes = 12

abbrev pub oak_hpke_info : Bytes
oak_hpke_info = codes "Oak Hybrid Public Key Encryption v1"

-- Private and public keys, encapsulated keys, and the contexts of the package hpke.
module _ (Private Public Encapped Context : Type 0) where
  pub record Suite : Type 0 where
    pub public_key : Private → Public
    pub private_to_bytes : Private → Bytes
    pub private_from_bytes : Bytes → Option Private
    pub public_to_bytes : Public → Bytes
    pub public_from_bytes : Bytes → Option Public
    pub encapped_to_bytes : Encapped → Bytes
    pub encapped_from_bytes : Bytes → Option Encapped
    -- what the random number generator gives, the key of the recipient, and the info string
    pub setup_sender : Bytes → Public → Bytes → Option (Encapped × Context)
    pub setup_receiver : Private → Encapped → Bytes → Option Context
    -- the label and the number of bytes
    pub export : Context → Bytes → ℕ → Option Bytes
    -- of `Aes256Gcm`: the key, the nonce, the text and the associated data
    pub encrypt : Bytes → Bytes → Bytes → Bytes → Option Bytes
    pub decrypt : Bytes → Bytes → Bytes → Bytes → Option Bytes

  -- Both sides of a setup export the same bytes.
  pub record Shares (s : Suite) (sender receiver : Context) (label : Bytes) (n : ℕ) : Type 0 where
    pub secret : Bytes
    pub length-secret : length secret ≡ n
    pub sent : s.export sender label n ≡ some secret
    pub received : s.export receiver label n ≡ some secret

  -- What the documentation of the packages says: a key is read back from its bytes, a sender and
  -- the receiver that gets the encapsulated key share what they export, and what is encrypted is
  -- decrypted.
  pub record IsSuite (s : Suite) : Type 0 where
    pub public_from_bytes-public_to_bytes :
        (p : Private)
        → s.public_from_bytes (s.public_to_bytes (s.public_key p)) ≡ some (s.public_key p)
    pub encapped_from_bytes-encapped_to_bytes :
        (e : Encapped) → s.encapped_from_bytes (s.encapped_to_bytes e) ≡ some e
    pub setup :
        (random : Bytes) (p : Private) (info : Bytes)
        → (e : Encapped) × (sender receiver : Context) × (s.setup_sender random
              (s.public_key p)
              info
            ≡ some (e, sender))
          × (s.setup_receiver p e info ≡ some receiver)
          × ((label : Bytes) (n : ℕ) → n ≤ 255 * 32 → Shares s sender receiver label n)
    pub encrypt-some :
        (key nonce msg aad : Bytes)
        → length key ≡ 32
        → length nonce ≡ 12
        → length msg ≤ 2 ^ 36
        → length aad ≤ 2 ^ 36
        → (o : Bytes) × (s.encrypt key nonce msg aad ≡ some o)
          × (s.decrypt key nonce o aad ≡ some msg)

-- `SenderContext` and `RecipientContext`, which have the same fields
pub record SenderContext : Type 0 where
  pub request_key : Bytes
  pub response_key : Bytes

pub record RecipientContext : Type 0 where
  pub request_key : Bytes
  pub response_key : Bytes

pub record SessionKeys : Type 0 where
  pub request_key : Bytes
  pub response_key : Bytes

-- `try_into` an array of so many bytes
unfoldable pub sized : ℕ → String → Bytes → Result Bytes
sized n message bs = if length bs == n then ok bs else bail message

unfoldable pub deserialize_nonce : Bytes → Result Bytes
unfolding sized
deserialize_nonce nonce =
    sized aead_nonce_size_bytes "incorrect nonce size, expected 12, found " nonce

unfoldable pub serialize : RecipientContext → SessionKeys
serialize c = record { request_key = c.request_key; response_key = c.response_key }

unfoldable pub deserialize : SessionKeys → Result RecipientContext
unfolding sized
deserialize k = do
  request_key ← sized 32 "incorrect request key size, expected 32, got " k.request_key
  response_key ← sized 32 "incorrect response key size, expected 32, got " k.response_key
  ok record { request_key = request_key; response_key = response_key }

module _ {Private Public Encapped Context : Type 0}
    (s : Suite Private Public Encapped Context) where
  unfoldable pub setup_base_sender : Bytes → Bytes → Bytes → Result (Bytes × SenderContext)
  setup_base_sender random recipient_key info = do
    public ←
        context "couldn't deserialize recipient public key: " (s.public_from_bytes recipient_key)
    (encapped, sender) ←
        context "couldn't create sender context: " (s.setup_sender random public info)
    request_key ← context "couldn't export request key: " (s.export sender (codes "request_key") 32)
    response_key ←
        context "couldn't export response key: " (s.export sender (codes "response_key") 32)
    ok (
      s.encapped_to_bytes encapped,
      record { request_key = request_key; response_key = response_key },
    )

  unfoldable pub setup_base_recipient : Bytes → Private → Bytes → Result RecipientContext
  setup_base_recipient encapped_key private info = do
    encapped ←
        context "couldn't deserialize the encapsulated public key: "
          (s.encapped_from_bytes encapped_key)
    receiver ←
        context "couldn't create recipient context: " (s.setup_receiver private encapped info)
    request_key ←
        context "couldn't export request key: " (s.export receiver (codes "request_key") 32)
    response_key ←
        context "couldn't export response key: " (s.export receiver (codes "response_key") 32)
    ok record { request_key = request_key; response_key = response_key }

  unfoldable pub aead_encrypt : Bytes → Bytes → Bytes → Bytes → Result Bytes
  aead_encrypt key nonce plaintext associated_data =
      context "couldn't encrypt data: " (s.encrypt key nonce plaintext associated_data)

  unfoldable pub aead_decrypt : Bytes → Bytes → Bytes → Bytes → Result Bytes
  aead_decrypt key nonce ciphertext associated_data =
      context "couldn't decrypt data: " (s.decrypt key nonce ciphertext associated_data)

  unfoldable pub sender_seal : SenderContext → Bytes → Bytes → Bytes → Result Bytes
  unfolding aead_encrypt
  sender_seal c nonce plaintext associated_data =
      with_context "couldn't encrypt request message"
        (aead_encrypt c.request_key nonce plaintext associated_data)

  unfoldable pub sender_open : SenderContext → Bytes → Bytes → Bytes → Result Bytes
  unfolding aead_decrypt
  sender_open c nonce ciphertext associated_data =
      with_context "couldn't decrypt response message"
        (aead_decrypt c.response_key nonce ciphertext associated_data)

  unfoldable pub recipient_open : RecipientContext → Bytes → Bytes → Bytes → Result Bytes
  unfolding aead_decrypt
  recipient_open c nonce ciphertext associated_data =
      with_context "couldn't decrypt request message"
        (aead_decrypt c.request_key nonce ciphertext associated_data)

  unfoldable pub recipient_seal : RecipientContext → Bytes → Bytes → Bytes → Result Bytes
  unfolding aead_encrypt
  recipient_seal c nonce plaintext associated_data =
      with_context "couldn't encrypt response message"
        (aead_encrypt c.response_key nonce plaintext associated_data)
