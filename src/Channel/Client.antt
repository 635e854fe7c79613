-- ===== src/Channel/Client.antt =====
-- oak_channel/src/client.rs and server.rs: the two ends of a channel, and the invocation ids.
use not_an_oak_fork.Base.{ℕ, zero, suc, ◌+◌, ◌%◌, ◌^◌, ◌<◌, ◌≡◌, List, arith}
use not_an_oak_fork.Channel.Transport.{M, Channel}
use not_an_oak_fork.Channel.Message.{
  RequestMessage, ResponseMessage, request_message, response_message,
}
use not_an_oak_fork.Channel.Invocation.{read_message, write_message}

module _ {S : Type 0} (c : Channel S) where
  -- `ClientChannelHandle`
  unfoldable pub write_request : RequestMessage → M S (Unit {0})
  write_request = write_message c request_message

  unfoldable pub read_response : ℕ → M S ResponseMessage
  read_response = read_message c response_message

  -- `ServerChannelHandle`
  unfoldable pub read_request : ℕ → M S RequestMessage
  read_request = read_message c request_message

  unfoldable pub write_response : ResponseMessage → M S (Unit {0})
  write_response = write_message c response_message

-- The field of `InvocationIdCounter`, a u32; a `RequestEncoder` holds nothing else.
pub record RequestEncoder : Type 0 where
  pub next_id : ℕ

abbrev pub new_encoder : RequestEncoder
new_encoder = record { next_id = 0 }

unfoldable pub next_invocation_id : RequestEncoder → ℕ × RequestEncoder
next_invocation_id e = (e.next_id, record { next_id = (e.next_id + 1) % 2 ^ 32 })

unfoldable pub encode_request : RequestEncoder → List ℕ → RequestMessage × RequestEncoder
unfolding next_invocation_id
encode_request e body =
    let (id, e') = next_invocation_id e in (record { invocation_id = id; body = body }, e')

-- the encoder after the given number of requests
pub after_requests : ℕ → RequestEncoder → RequestEncoder
unfolding encode_request
after_requests zero e = e
after_requests (suc n) e = after_requests n (encode_request e (List.[])).1

after_requests-next_id :
    (n : ℕ) (e : RequestEncoder)
    → e.next_id < 2 ^ 32
    → (after_requests n e).next_id ≡ (e.next_id + n) % 2 ^ 32
unfolding after_requests
after_requests-next_id zero e h = omega arith
after_requests-next_id (suc n) e h =
    omega (
      arith,
      after_requests-next_id n (record { next_id = (e.next_id + 1) % 2 ^ 32 }) (omega arith),
    )

-- The ids count up from zero and wrap at 2^32; so two requests of one encoder share an id only
-- when a multiple of 2^32 requests lies between them.
pub encode_request-id :
    (n : ℕ) (body : List ℕ)
    → (encode_request (after_requests n new_encoder) body).0.invocation_id ≡ n % 2 ^ 32
unfolding encode_request
encode_request-id n body = omega (arith, after_requests-next_id n new_encoder (omega arith))

pub encode_request-fresh :
    (i k : ℕ) (a b : List ℕ)
    → k + 1 < 2 ^ 32
    → let first = (encode_request (after_requests i new_encoder) a).0 in
      let later = (encode_request (after_requests (i + (k + 1)) new_encoder) b).0 in
      ¬ (first.invocation_id ≡ later.invocation_id) × (first.invocation_id < 2 ^ 32)
encode_request-fresh i k a b h =
    omega (arith, encode_request-id i a, encode_request-id (i + (k + 1)) b)
