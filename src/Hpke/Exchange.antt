-- ===== src/Hpke/Exchange.antt =====
-- A request and its response through the encryptors of oak_crypto/src/encryptor.rs.
use not_an_oak_fork.Base.{
  ℕ, ◌^◌, ◌≤◌, ◌≡◌, refl, Option, some, none, length, codes, true, ◌==◌, ok, bail, String, arith,
}
use not_an_oak_fork.Hpke.Contexts.{
  Bytes, oak_hpke_info, Suite, IsSuite, SenderContext, RecipientContext, sized, deserialize_nonce,
  serialize, deserialize, setup_base_sender, setup_base_recipient, aead_encrypt, aead_decrypt,
  sender_seal, sender_open, recipient_open, recipient_seal,
}
use not_an_oak_fork.Hpke.Encryptor.{
  AeadEncryptedMessage, EncryptedRequest, EncryptedResponse, ClientEncryptor, ServerEncryptor,
  create, client_encrypt, client_decrypt, decrypt_inner, generate_recipient_context, server_decrypt,
  server_encrypt,
}

sized-ok : (n : ℕ) (m : String) (bs : Bytes) → length bs ≡ n → sized n m bs ≡ ok bs
unfolding sized
sized-ok n m bs h = let e : (length bs == n) ≡ true = ground (arith, h) in rw e refl

deserialize_nonce-ok : (n : Bytes) → length n ≡ 12 → deserialize_nonce n ≡ ok n
unfolding deserialize_nonce
deserialize_nonce-ok n h = sized-ok 12 _ n h

-- A nonce, a text and its associated data, of the lengths that the cipher takes.
pub record Message : Type 0 where
  pub nonce : Bytes
  pub text : Bytes
  pub associated_data : Bytes

abbrev pub Fits : Message → Type 0
Fits m = (length m.nonce ≡ 12) × (length m.text ≤ 2 ^ 36) × (length m.associated_data ≤ 2 ^ 36)

module _ {Private Public Encapped Context : Type 0}
    (s : Suite Private Public Encapped Context) where
  -- The first request is read and answered, also by a server that has been given the keys of the
  -- session; a second request of the client is made, and a server would read it with the same keys,
  -- but takes no request without an encapsulated key.
  pub record Exchange (private : Private) (random : Bytes) (first answer second : Message)
      : Type 0 where
    pub client : ClientEncryptor
    pub request : EncryptedRequest
    pub client' : ClientEncryptor
    pub server : ServerEncryptor
    pub response : EncryptedResponse
    pub request' : EncryptedRequest
    pub client'' : ClientEncryptor
    pub created : create s random (s.public_to_bytes (s.public_key private)) ≡ ok client
    pub encrypted :
        client_encrypt s first.nonce first.text first.associated_data client ≡ ok (request, client')
    pub received : server_decrypt s request private ≡ ok (server, first.text, first.associated_data)
    pub restored : deserialize (serialize server.recipient_context) ≡ ok server.recipient_context
    pub answered :
        server_encrypt s answer.nonce answer.text answer.associated_data server ≡ ok response
    pub read : client_decrypt s response client' ≡ ok (answer.text, answer.associated_data)
    pub followed :
        client_encrypt s second.nonce second.text second.associated_data client'
        ≡ ok (request', client'')
    pub readable : decrypt_inner s request' server ≡ ok (second.text, second.associated_data)
    pub refused :
        server_decrypt s request' private
        ≡ bail "initial request message doesn't contain encapsulated public key"

  module _ (l : IsSuite Private Public Encapped Context s) where
    abbrev sealed : Message → Bytes → AeadEncryptedMessage
    sealed m o = record { nonce = m.nonce; ciphertext = o; associated_data = m.associated_data }

    -- A message under the key of requests, from the client to the server.
    upstream :
        (m : Message) (c : ClientEncryptor) (e : ServerEncryptor)
        → Fits m
        → c.sender_context.request_key ≡ e.recipient_context.request_key
        → length c.sender_context.request_key ≡ 32
        → (o : Bytes) × (client_encrypt s m.nonce m.text m.associated_data c
            ≡ ok (
              record {
                encrypted_message = some (sealed m o);
                serialized_encapsulated_public_key = c.serialized_encapsulated_public_key;
              },
              record c { serialized_encapsulated_public_key = none },
            ))
          × ((k : Option Bytes)
              → decrypt_inner s
                  record {
                    encrypted_message = some (sealed m o);
                    serialized_encapsulated_public_key = k;
                  }
                  e
                ≡ ok (m.text, m.associated_data))
    unfolding client_encrypt decrypt_inner sender_seal recipient_open aead_encrypt aead_decrypt
    upstream m c e (hn, ht, ha) same n =
        let (o, x, y) =
          l.encrypt-some c.sender_context.request_key m.nonce m.text m.associated_data n hn ht ha in
        (o, rw x refl, λ k. rw (deserialize_nonce-ok m.nonce hn) (rw (← same) (rw y refl)))

    -- A message under the key of responses, the other way.
    downstream :
        (m : Message) (c : ClientEncryptor) (e : ServerEncryptor)
        → Fits m
        → e.recipient_context.response_key ≡ c.sender_context.response_key
        → length e.recipient_context.response_key ≡ 32
        → (o : Bytes) × (server_encrypt s m.nonce m.text m.associated_data e
            ≡ ok record { encrypted_message = some (sealed m o) })
          × (client_decrypt s record { encrypted_message = some (sealed m o) } c
              ≡ ok (m.text, m.associated_data))
    unfolding server_encrypt client_decrypt sender_open recipient_seal aead_encrypt aead_decrypt
    downstream m c e (hn, ht, ha) same n =
        let (o, x, y) =
          l.encrypt-some e.recipient_context.response_key m.nonce m.text m.associated_data n hn ht
            ha in
        (o, rw x refl, rw (deserialize_nonce-ok m.nonce hn) (rw (← same) (rw y refl)))

    -- Both sides of a session hold the same two keys.
    record Keys (private : Private) (random : Bytes) : Type 0 where
      encapped_key : Bytes
      request_key : Bytes
      response_key : Bytes
      length-request : length request_key ≡ 32
      length-response : length response_key ≡ 32
      set_up :
          create s random (s.public_to_bytes (s.public_key private))
          ≡ ok record {
            serialized_encapsulated_public_key = some encapped_key;
            sender_context = record { request_key = request_key; response_key = response_key };
          }
      derived :
          generate_recipient_context s encapped_key private
          ≡ ok record { request_key = request_key; response_key = response_key }

    setup-Keys : (private : Private) (random : Bytes) → Keys private random
    unfolding create setup_base_sender generate_recipient_context setup_base_recipient
    setup-Keys private random =
        let (e, a, b, x, y, shares) = l.setup random private oak_hpke_info in
        let q = shares (codes "request_key") 32 (omega arith) in
        let r = shares (codes "response_key") 32 (omega arith) in
        record {
          encapped_key = s.encapped_to_bytes e;
          request_key = q.secret;
          response_key = r.secret;
          length-request = q.length-secret;
          length-response = r.length-secret;
          set_up =
              rw (l.public_from_bytes-public_to_bytes private) (rw x (rw q.sent (rw r.sent refl)));
          derived =
              rw (l.encapped_from_bytes-encapped_to_bytes e)
                (rw y (rw q.received (rw r.received refl)));
        }

    -- Over a suite and a cipher that do as documented, with a private key, and with messages
    -- that have a nonce of 12 bytes and a text and associated data of at most 2^36 bytes: a
    -- client created with the public key encrypts a first request, a server with the private
    -- key decrypts it to the same text and data, its keys are read back from their serialised
    -- form, it encrypts an answer, and the client decrypts that to the same text and data. A
    -- second request of the client is encrypted and would decrypt under the server's keys, but
    -- `ServerEncryptor::decrypt` refuses it, since it comes without an encapsulated key.
    pub request-Exchange :
        (private : Private) (random : Bytes) (first answer second : Message)
        → Fits first
        → Fits answer
        → Fits second
        → Exchange private random first answer second
    unfolding server_decrypt serialize deserialize
    request-Exchange private random first answer second hf ha hs =
        let k = setup-Keys private random in
        let sender : SenderContext = record {
          request_key = k.request_key;
          response_key = k.response_key;
        } in
        let recipient : RecipientContext = record {
          request_key = k.request_key;
          response_key = k.response_key;
        } in
        let c : ClientEncryptor = record {
          serialized_encapsulated_public_key = some k.encapped_key;
          sender_context = sender;
        } in
        let c' : ClientEncryptor = record c { serialized_encapsulated_public_key = none } in
        let e : ServerEncryptor = record { recipient_context = recipient } in
        let (o1, x1, y1) = upstream first c e hf refl k.length-request in
        let (o2, x2, y2) = downstream answer c' e ha refl k.length-response in
        let (o3, x3, y3) = upstream second c' e hs refl k.length-request in
        record {
          client = c;
          request = record {
            encrypted_message = some (sealed first o1);
            serialized_encapsulated_public_key = some k.encapped_key;
          };
          client' = c';
          server = e;
          response = record { encrypted_message = some (sealed answer o2) };
          request' = record {
            encrypted_message = some (sealed second o3);
            serialized_encapsulated_public_key = none;
          };
          client'' = c';
          created = k.set_up;
          encrypted = x1;
          received = rw k.derived (rw (y1 (some k.encapped_key)) refl);
          restored =
              rw (sized-ok 32 _ k.request_key k.length-request)
                (rw (sized-ok 32 _ k.response_key k.length-response) refl);
          answered = x2;
          read = y2;
          followed = x3;
          readable = y3 none;
          refused = refl;
        }
