-- ===== src/Channel/Invocation.antt =====
-- `InvocationChannel` of oak_channel/src/lib.rs: whole messages over framed channels.
use not_an_oak_fork.Base.{
  ℕ, zero, suc, true, false, List, [], ◌∷◌, ok, bail, panic, ltb, if◌then◌else◌, length, take, drop,
  from_le_bytes,
}
use not_an_oak_fork.Channel.Transport.{M, Channel, unfinished, lift, in_context, ◌>>=◌, ◌>>◌}
use not_an_oak_fork.Channel.Frame.{Frame, read_frame, write_frame, bytes_into_frames, max_body_size}
use not_an_oak_fork.Channel.Message
use not_an_oak_fork.Channel.Message.{Message}

module _ {S : Type 0} (c : Channel S) where
  -- The loop of `read_message`: frames up to the first with END, none with START. Each round
  -- reads more than 8 bytes of the channel; the fuel bounds the rounds.
  unfoldable pub read_rest : ℕ → List ℕ → M S (List ℕ)
  read_rest zero buffer = λ s. (unfinished, s)
  read_rest (suc fuel) buffer = in_context "couldn't read frame" (read_frame c buffer) >>= λ r.
      elim r.0.flags.start [
        | true ↦ lift (bail "received two frames with the START flag set")
        | false ↦ elim r.0.flags.end [ true ↦ lift (ok r.1) | false ↦ read_rest fuel r.1 ]
      ]

  -- The length prefix is read off the first body (a slice that panics when it is too short), and
  -- `message_length - MAX_BODY_SIZE` panics when it is negative.
  unfoldable pub reserve_for : List ℕ → M S (Unit {0})
  reserve_for body =
      if ltb (length body) Message.length_size
      then lift panic
      else if ltb (from_le_bytes (take Message.length_size (drop Message.length_offset body)))
          max_body_size
      then lift panic
      else lift (ok tt)

  module _ {T : Type 0} (m : Message T) where
    unfoldable pub read_message : ℕ → M S T
    unfolding read_rest reserve_for
    read_message fuel = in_context "couldn't read frame" (read_frame c []) >>= λ r.
        if r.0.flags.start
        then (if r.0.flags.end
            then lift (m.decode r.1)
            else (do reserve_for r.0.body; buffer ← read_rest fuel r.1; lift (m.decode buffer)))
        else lift (bail "expected a frame with the START flag set")

  unfoldable pub write_frames : List Frame → M S (Unit {0})
  write_frames [] = lift (ok tt)
  write_frames (f ∷ fs) = do in_context "couldn't write frame" (write_frame c f); write_frames fs

  module _ {T : Type 0} (m : Message T) where
    unfoldable pub write_message : T → M S (Unit {0})
    unfolding write_frames
    write_message t = do
      encoded ← lift (m.encode t)
      frames ← lift (bytes_into_frames encoded)
      write_frames frames
