-- ===== src/Channel/Message.antt =====
-- oak_channel/src/message.rs: requests and responses as length-prefixed byte strings.
use not_an_oak_fork.Base.{
  ℕ, ◌+◌, ◌^◌, List, ◌++◌, Result, ok, panic, ltb, if◌then◌else◌, length, take, drop, to_le_bytes,
  from_le_bytes,
}

abbrev pub length_size : ℕ
length_size = 4

abbrev pub length_offset : ℕ
length_offset = 0

abbrev pub invocation_id_size : ℕ
invocation_id_size = 4

abbrev pub invocation_id_offset : ℕ
invocation_id_offset = 4

abbrev pub body_offset : ℕ
body_offset = 8

-- The trait `Message`. Both implementations may panic: `encode` on a length that is no u32, and
-- `decode` on a slice that is too short.
pub record Message (M : Type 0) : Type 0 where
  pub len : M → ℕ
  pub encode : M → Result (List ℕ)
  pub decode : List ℕ → Result M

pub record RequestMessage : Type 0 where
  pub invocation_id : ℕ
  pub body : List ℕ

pub record ResponseMessage : Type 0 where
  pub invocation_id : ℕ
  pub body : List ℕ

unfoldable pub request_len : RequestMessage → ℕ
request_len m = length_size + invocation_id_size + length m.body

unfoldable pub request_encode : RequestMessage → Result (List ℕ)
unfolding request_len
request_encode m =
    if ltb (request_len m) (2 ^ 32)
    then ok (to_le_bytes 4 (request_len m) ++ (to_le_bytes 4 m.invocation_id ++ m.body))
    else panic

-- `encoded[4..8]` and `encoded[8..]` panic where the slice is shorter than 8 bytes.
unfoldable pub request_decode : List ℕ → Result RequestMessage
request_decode bytes =
    if ltb (length bytes) body_offset
    then panic
    else ok (record {
      invocation_id = from_le_bytes (take invocation_id_size (drop invocation_id_offset bytes));
      body = drop body_offset bytes;
    })

unfoldable pub response_len : ResponseMessage → ℕ
response_len m = length_size + invocation_id_size + length m.body

unfoldable pub response_encode : ResponseMessage → Result (List ℕ)
unfolding response_len
response_encode m =
    if ltb (response_len m) (2 ^ 32)
    then ok (to_le_bytes 4 (response_len m) ++ (to_le_bytes 4 m.invocation_id ++ m.body))
    else panic

unfoldable pub response_decode : List ℕ → Result ResponseMessage
response_decode bytes =
    if ltb (length bytes) body_offset
    then panic
    else ok (record {
      invocation_id = from_le_bytes (take invocation_id_size (drop invocation_id_offset bytes));
      body = drop body_offset bytes;
    })

abbrev pub request_message : Message RequestMessage
request_message = record { len = request_len; encode = request_encode; decode = request_decode }

abbrev pub response_message : Message ResponseMessage
response_message = record { len = response_len; encode = response_encode; decode = response_decode }
