-- ===== src/Channel/MessageLaws.antt =====
-- What a channel needs of a message type, and that requests and responses have it.
use not_an_oak_fork.Base.{
  ℕ, ◌+◌, ◌^◌, ◌≤◌, ◌<◌, ◌≡◌, ◌∙◌, List, ◌++◌, ok, arith, length, take, drop, from_le_bytes,
  to_le_bytes, from_le_bytes-to_le_bytes, lt→ltb,
}
use not_an_oak_fork.Channel.Message.{
  Message, RequestMessage, ResponseMessage, request_message, response_message, request_len,
  request_encode, request_decode, response_len, response_encode, response_decode, length_size,
  length_offset, invocation_id_size, body_offset,
}

-- `t` is encoded in `bytes`: they decode to it, and start with their own number.
pub record Encodes {T : Type 0} (m : Message T) (t : T) (bytes : List ℕ) : Type 0 where
  pub encoded : m.encode t ≡ ok bytes
  pub decoded : m.decode bytes ≡ ok t
  pub counted : from_le_bytes (take length_size (drop length_offset bytes)) ≡ length bytes
  pub headed : body_offset ≤ length bytes

-- Any request and any response of less than 4 GiB is encoded, and decodes to itself.
pub request-Encodes :
    (t : RequestMessage)
    → t.invocation_id < 2 ^ 32
    → request_len t < 2 ^ 32
    → Encodes request_message t
        (to_le_bytes 4 (request_len t) ++ (to_le_bytes 4 t.invocation_id ++ t.body))
unfolding request_encode request_decode request_len
request-Encodes t p h = record {
  encoded = rw (lt→ltb (length_size + invocation_id_size + length t.body) (2 ^ 32) h);
  decoded = ground (arith, from_le_bytes-to_le_bytes 4 t.invocation_id p);
  counted = from_le_bytes-to_le_bytes 4 _ h ∙ omega arith;
  headed = omega arith;
}

pub response-Encodes :
    (t : ResponseMessage)
    → t.invocation_id < 2 ^ 32
    → response_len t < 2 ^ 32
    → Encodes response_message t
        (to_le_bytes 4 (response_len t) ++ (to_le_bytes 4 t.invocation_id ++ t.body))
unfolding response_encode response_decode response_len
response-Encodes t p h = record {
  encoded = rw (lt→ltb (length_size + invocation_id_size + length t.body) (2 ^ 32) h);
  decoded = ground (arith, from_le_bytes-to_le_bytes 4 t.invocation_id p);
  counted = from_le_bytes-to_le_bytes 4 _ h ∙ omega arith;
  headed = omega arith;
}
