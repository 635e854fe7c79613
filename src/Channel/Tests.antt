-- ===== src/Channel/Tests.antt =====
-- The theorems about channels, on the channel in memory.
use not_an_oak_fork.Base.{
  ℕ, ◌+◌, ◌≡◌, ◌≢◌, ◌≤◌, ◌<◌, ◌^◌, refl, true, false, inl, List, [], ◌∷◌, ◌++◌, ok, bail, panic,
  String, arith, length,
}
use not_an_oak_fork.Channel.Transport.{done, unfinished}
use not_an_oak_fork.Channel.Memory.{Memory, memory_channel, memory_stream, memory-IsFinite}
use not_an_oak_fork.Channel.Frame.{Frame, read_frame, bytes_into_frames}
use not_an_oak_fork.Channel.Wire.{Runs, wire}
use not_an_oak_fork.Channel.Chunks.{IsMessage, bodies, bytes_into_frames-IsMessage}
use not_an_oak_fork.Channel.Message.{
  RequestMessage, ResponseMessage, request_message, request_len, response_len,
}
use not_an_oak_fork.Channel.MessageLaws.{request-Encodes}
use not_an_oak_fork.Channel.Invocation.{read_message, write_message}
use not_an_oak_fork.Channel.RoundTrip.{read_message-write_message}
use not_an_oak_fork.Channel.Rejects.{
  read_frame_bad_length, read_message_unstarted, read_message_panics,
}
use not_an_oak_fork.Channel.Client.{
  write_request, read_request, write_response, read_response, new_encoder, after_requests,
  encode_request, encode_request-fresh,
}
use not_an_oak_fork.Channel.Termination.{read_message-ends}
use not_an_oak_fork.Channel.BasicFramed.{send_raw, receive_raw}
use not_an_oak_fork.Channel.BasicFramedLaws.{receive_raw-send_raw}
use not_an_oak_fork.Channel.Ends.{read_request-write_request, read_response-write_response}

abbrev request : RequestMessage
request = record { invocation_id = 7; body = 1 ∷ 2 ∷ 3 ∷ [] }

abbrev response : ResponseMessage
response = record { invocation_id = 7; body = 4 ∷ [] }

abbrev encoded : List ℕ
encoded = 11 ∷ 0 ∷ 0 ∷ 0 ∷ 7 ∷ 0 ∷ 0 ∷ 0 ∷ 1 ∷ 2 ∷ 3 ∷ []

read_message-write_message_example :
    (w : List ℕ) × ((s : Memory)
      → Runs memory_stream
          (write_message memory_channel request_message request)
          s
          tt
          s.unread
          (s.written ++ w))
    × ((fuel : ℕ) (s : Memory) (rest : List ℕ)
        → length w ≤ fuel
        → s.unread ≡ w ++ rest
        → Runs memory_stream
            (read_message memory_channel request_message fuel)
            s
            request
            rest
            s.written)
unfolding request_len
read_message-write_message_example =
    read_message-write_message memory_stream memory_stream request_message request encoded
      (request-Encodes request (omega arith) (omega arith))

read_request-write_request_example :
    (w : List ℕ) × ((s : Memory)
      → Runs memory_stream (write_request memory_channel request) s tt s.unread (s.written ++ w))
    × ((fuel : ℕ) (s : Memory) (rest : List ℕ)
        → length w ≤ fuel
        → s.unread ≡ w ++ rest
        → Runs memory_stream (read_request memory_channel fuel) s request rest s.written)
unfolding request_len
read_request-write_request_example =
    read_request-write_request memory_stream memory_stream request (omega arith) (omega arith)

read_response-write_response_example :
    (w : List ℕ) × ((s : Memory)
      → Runs memory_stream (write_response memory_channel response) s tt s.unread (s.written ++ w))
    × ((fuel : ℕ) (s : Memory) (rest : List ℕ)
        → length w ≤ fuel
        → s.unread ≡ w ++ rest
        → Runs memory_stream (read_response memory_channel fuel) s response rest s.written)
unfolding response_len
read_response-write_response_example =
    read_response-write_response memory_stream memory_stream response (omega arith) (omega arith)

bytes_into_frames-IsMessage_example :
    (fs : List Frame) × (bytes_into_frames (1 ∷ 2 ∷ []) ≡ ok fs)
    × IsMessage fs
    × (bodies fs ≡ 1 ∷ 2 ∷ [])
bytes_into_frames-IsMessage_example = bytes_into_frames-IsMessage 1 (2 ∷ [])

-- a length field of 8 is too small
read_frame_bad_length_example :
    (t : Memory) × (e : String) × (read_frame memory_channel []
        (record { unread = 0 ∷ 0 ∷ 0 ∷ 0 ∷ 8 ∷ 0 ∷ 5 ∷ []; written = [] })
      ≡ (done (bail e), t))
    × (t.unread ≡ 5 ∷ [])
read_frame_bad_length_example =
    read_frame_bad_length memory_stream [] 8 (5 ∷ [])
      (record { unread = 0 ∷ 0 ∷ 0 ∷ 0 ∷ 8 ∷ 0 ∷ 5 ∷ []; written = [] }) (omega arith)
      (inl (omega arith)) refl

-- frames of one byte: without flags, and with START alone
abbrev plain : Frame
plain = record { flags = record { start = false; end = false }; body = 9 ∷ [] }

abbrev opening : Frame
opening = record { flags = record { start = true; end = false }; body = 9 ∷ [] }

abbrev holding : Frame → Memory
holding f = record { unread = wire f ++ (5 ∷ []); written = [] }

read_message_unstarted_example :
    (t : Memory) × (read_message memory_channel request_message 3 (holding plain)
      ≡ (done (bail "expected a frame with the START flag set"), t))
    × (t.unread ≡ 5 ∷ [])
read_message_unstarted_example =
    read_message_unstarted memory_stream request_message 3 plain (5 ∷ []) (holding plain)
      (omega arith, omega arith) refl refl

read_message_panics_example :
    (t : Memory) × (read_message memory_channel request_message 3 (holding opening)
      ≡ (done panic, t))
read_message_panics_example =
    read_message_panics memory_stream request_message 3 opening (5 ∷ []) (holding opening)
      (omega arith, omega arith) refl refl (inl (omega arith)) refl

encode_request-fresh_example :
    let first = (encode_request (after_requests 2 new_encoder) []).0 in
    let later = (encode_request (after_requests (2 + (3 + 1)) new_encoder) []).0 in
    ¬ (first.invocation_id ≡ later.invocation_id) × (first.invocation_id < 2 ^ 32)
encode_request-fresh_example = encode_request-fresh 2 3 [] [] (omega arith)

read_message-ends_example :
    (read_message memory_channel request_message 10 (holding opening)).0 ≢ unfinished
read_message-ends_example =
    read_message-ends memory_channel memory-IsFinite request_message 10 (holding opening)
      (omega arith)

receive_raw-send_raw_example :
    (w acknowledged : List ℕ) × ((s : Memory) (rest : List ℕ)
      → s.unread ≡ acknowledged ++ rest
      → Runs memory_stream (send_raw memory_channel (1 ∷ 2 ∷ [])) s tt rest (s.written ++ w))
    × ((s : Memory) (rest : List ℕ)
        → s.unread ≡ w ++ rest
        → Runs memory_stream
            (receive_raw memory_channel)
            s
            (1 ∷ 2 ∷ [])
            rest
            (s.written ++ acknowledged))
receive_raw-send_raw_example =
    receive_raw-send_raw memory_stream memory_stream (1 ∷ 2 ∷ []) (omega arith)
