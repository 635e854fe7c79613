-- ===== src/Channel/Ends.antt =====
-- The two ends of a channel, oak_channel/src/client.rs and server.rs: what one end writes, the
-- other reads.
use not_an_oak_fork.Base.{ℕ, ◌^◌, ◌≤◌, ◌<◌, ◌≡◌, List, ◌++◌, length}
use not_an_oak_fork.Channel.Transport.{Channel, IsStream}
use not_an_oak_fork.Channel.Wire.{Runs}
use not_an_oak_fork.Channel.Message.{
  RequestMessage, ResponseMessage, request_message, response_message, request_len, response_len,
}
use not_an_oak_fork.Channel.MessageLaws.{request-Encodes, response-Encodes}
use not_an_oak_fork.Channel.Client.{write_request, read_response, read_request, write_response}
use not_an_oak_fork.Channel.RoundTrip.{read_message-write_message}

module _ {S S' : Type 0} {client : Channel S} {server : Channel S'} (st : IsStream S client)
    (st' : IsStream S' server) where
  -- A request whose id is a u32 and whose encoded length is less than 2^32, over two channels
  -- that keep the promise of a stream: the client writes it as one string of bytes from every
  -- state, and a server that has this string next, with fuel for its length, reads the same
  -- request, leaves what follows and writes nothing.
  pub read_request-write_request :
      (t : RequestMessage)
      → t.invocation_id < 2 ^ 32
      → request_len t < 2 ^ 32
      → (w : List ℕ) × ((s : S)
          → Runs st (write_request client t) s tt (st.incoming s) (st.outgoing s ++ w))
        × ((fuel : ℕ) (s : S') (rest : List ℕ)
            → length w ≤ fuel
            → st'.incoming s ≡ w ++ rest
            → Runs st' (read_request server fuel) s t rest (st'.outgoing s))
  unfolding write_request read_request
  read_request-write_request t p h =
      read_message-write_message st st' request_message t _ (request-Encodes t p h)

  -- A response whose id is a u32 and whose encoded length is less than 2^32, over two channels
  -- that keep the promise of a stream: the server writes it as one string of bytes from every
  -- state, and a client that has this string next, with fuel for its length, reads the same
  -- response, leaves what follows and writes nothing.
  pub read_response-write_response :
      (t : ResponseMessage)
      → t.invocation_id < 2 ^ 32
      → response_len t < 2 ^ 32
      → (w : List ℕ) × ((s : S')
          → Runs st' (write_response server t) s tt (st'.incoming s) (st'.outgoing s ++ w))
        × ((fuel : ℕ) (s : S) (rest : List ℕ)
            → length w ≤ fuel
            → st.incoming s ≡ w ++ rest
            → Runs st (read_response client fuel) s t rest (st.outgoing s))
  unfolding write_response read_response
  read_response-write_response t p h =
      read_message-write_message st' st response_message t _ (response-Encodes t p h)
