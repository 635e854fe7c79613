-- ===== src/Hpke/Encryptor.antt =====
-- oak_crypto/src/encryptor.rs and encryption_key.rs: the client that encrypts requests and the
-- server that encrypts responses. What the random number generator gives is an argument.
use not_an_oak_fork.Base.{Option, some, none, [], Result, ok, with_context, context, ◌>>=◌}
use not_an_oak_fork.Hpke.Contexts.{
  Bytes, oak_hpke_info, Suite, SenderContext, RecipientContext, deserialize_nonce,
  setup_base_sender, setup_base_recipient, sender_seal, sender_open, recipient_open, recipient_seal,
}

pub record AeadEncryptedMessage : Type 0 where
  pub nonce : Bytes
  pub ciphertext : Bytes
  pub associated_data : Bytes

pub record EncryptedRequest : Type 0 where
  pub encrypted_message : Option AeadEncryptedMessage
  pub serialized_encapsulated_public_key : Option Bytes

pub record EncryptedResponse : Type 0 where
  pub encrypted_message : Option AeadEncryptedMessage

pub record ClientEncryptor : Type 0 where
  pub serialized_encapsulated_public_key : Option Bytes
  pub sender_context : SenderContext

pub record ServerEncryptor : Type 0 where
  pub recipient_context : RecipientContext

module _ {Private Public Encapped Context : Type 0}
    (s : Suite Private Public Encapped Context) where
  unfoldable pub create : Bytes → Bytes → Result ClientEncryptor
  unfolding setup_base_sender
  create random server_public_key = do
    (encapped, sender) ←
        with_context "couldn't create sender crypto context"
          (setup_base_sender s random server_public_key oak_hpke_info)
    ok record { serialized_encapsulated_public_key = some encapped; sender_context = sender }

  -- The encapsulated key is taken out of the encryptor.
  unfoldable pub client_encrypt :
      Bytes → Bytes → Bytes → ClientEncryptor → Result (EncryptedRequest × ClientEncryptor)
  unfolding sender_seal
  client_encrypt nonce plaintext associated_data c = do
    ciphertext ←
        with_context "couldn't encrypt request"
          (sender_seal s c.sender_context nonce plaintext associated_data)
    ok (
      record {
        encrypted_message =
            some
              record { nonce = nonce; ciphertext = ciphertext; associated_data = associated_data };
        serialized_encapsulated_public_key = c.serialized_encapsulated_public_key;
      },
      record c { serialized_encapsulated_public_key = none },
    )

  unfoldable pub client_decrypt : EncryptedResponse → ClientEncryptor → Result (Bytes × Bytes)
  unfolding sender_open deserialize_nonce
  client_decrypt response c = do
    message ← context "response doesn't contain encrypted message" response.encrypted_message
    nonce ← with_context "couldn't deserialize nonce" (deserialize_nonce message.nonce)
    plaintext ←
        with_context "couldn't decrypt response"
          (sender_open s c.sender_context nonce message.ciphertext message.associated_data)
    ok (plaintext, message.associated_data)

  unfoldable pub decrypt_inner : EncryptedRequest → ServerEncryptor → Result (Bytes × Bytes)
  unfolding recipient_open deserialize_nonce
  decrypt_inner request e = do
    message ← context "request doesn't contain encrypted message" request.encrypted_message
    nonce ← with_context "couldn't deserialize nonce" (deserialize_nonce message.nonce)
    plaintext ←
        with_context "couldn't decrypt request"
          (recipient_open s e.recipient_context nonce message.ciphertext message.associated_data)
    ok (plaintext, message.associated_data)

  unfoldable pub generate_recipient_context : Bytes → Private → Result RecipientContext
  unfolding setup_base_recipient
  generate_recipient_context encapped_key private =
      with_context "couldn't generate recipient crypto context"
        (setup_base_recipient s encapped_key private oak_hpke_info)

  unfoldable pub server_decrypt :
      EncryptedRequest → Private → Result (ServerEncryptor × Bytes × Bytes)
  unfolding generate_recipient_context decrypt_inner
  server_decrypt request private = do
    encapped_key ←
        context "initial request message doesn't contain encapsulated public key"
          request.serialized_encapsulated_public_key
    recipient ←
        with_context "couldn't generate recipient crypto context"
          (generate_recipient_context encapped_key private)
    let encryptor : ServerEncryptor = record { recipient_context = recipient }
    (plaintext, associated_data) ← decrypt_inner request encryptor
    ok (encryptor, plaintext, associated_data)

  -- The encryptor is used up.
  unfoldable pub server_encrypt : Bytes → Bytes → Bytes → ServerEncryptor → Result EncryptedResponse
  unfolding recipient_seal
  server_encrypt nonce plaintext associated_data e = do
    ciphertext ←
        with_context "couldn't encrypt response"
          (recipient_seal s e.recipient_context nonce plaintext associated_data)
    ok record {
      encrypted_message =
          some record { nonce = nonce; ciphertext = ciphertext; associated_data = associated_data };
    }

  unfoldable pub deserialize_key : Bytes → Result Private
  deserialize_key bs = context "couldn't deserialize private key: " (s.private_from_bytes bs)

  unfoldable pub encrypted_private_key : Bytes → Bytes → Bytes → Private → Result EncryptedRequest
  unfolding create client_encrypt
  encrypted_private_key random nonce peer_public_key private = do
    client ← with_context "couldn't create client encryptor" (create random peer_public_key)
    (request, _) ← client_encrypt nonce (s.private_to_bytes private) [] client
    ok request
