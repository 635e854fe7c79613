-- ===== src/Channel/Rejects.antt =====
-- Frame sequences that `read_frame` and `read_message` turn down.
use not_an_oak_fork.Base.{
  ℕ, suc, ◌≤◌, ◌<◌, ◌^◌, ◌≡◌, refl, ◌⊎◌, inl, inr, true, false, List, [], ◌++◌, bail, panic, arith,
  length, take, from_le_bytes, to_le_bytes, from_le_bytes-to_le_bytes, String,
}
use not_an_oak_fork.Channel.Transport.{Channel, IsStream, done}
use not_an_oak_fork.Channel.Frame.{
  Frame, padding, length_size, body_offset, max_size, max_body_size, check_length, read_frame,
}
use not_an_oak_fork.Channel.Wire.{wire, Runs-read}
use not_an_oak_fork.Channel.FrameLaws.{read_frame-Runs}
use not_an_oak_fork.Channel.Chunks.{Fits}
use not_an_oak_fork.Channel.Message.{Message}
use not_an_oak_fork.Channel.Invocation.{read_rest, reserve_for, read_message}

check_length-bad :
    (n : ℕ) → (n ≤ body_offset) ⊎ (max_size < n) → (e : String) × (check_length n ≡ bail e)
unfolding check_length
check_length-bad n (inl h) = ("frame is too small", ground arith)
check_length-bad n (inr h) = ("frame exceeds the maximum frame size", ground arith)

module _ {S : Type 0} {c : Channel S} (st : IsStream S c) where
  -- On a channel that keeps the promise of a stream, a frame whose u16 length field is at most
  -- 8 or more than 4000 is an error, and nothing behind that field is read.
  pub read_frame_bad_length :
      (buffer : List ℕ) (n : ℕ) (rest : List ℕ) (s : S)
      → n < 2 ^ 16
      → (n ≤ body_offset) ⊎ (max_size < n)
      → st.incoming s ≡ padding ++ (to_le_bytes length_size n ++ rest)
      → (t : S) × (e : String) × (read_frame c buffer s ≡ (done (bail e), t))
        × (st.incoming t ≡ rest)
  unfolding read_frame
  read_frame_bad_length buffer n rest s small bad h =
      let r = Runs-read st padding _ _ s refl h in
      let q = Runs-read st (to_le_bytes length_size n) rest _ r.state refl r.input in
      let (e, b) = check_length-bad n bad in
      (
        q.state,
        e,
        rw (r.result, q.result, from_le_bytes-to_le_bytes length_size n small, b) refl,
        q.input,
      )

  reserve_for_panics :
      (body : List ℕ) (s : S)
      → (length body < 4) ⊎ (from_le_bytes (take 4 body) < max_body_size)
      → reserve_for c body s ≡ (done panic, s)
  unfolding reserve_for
  reserve_for_panics body s bad = ground arith

  -- On a channel that keeps the promise of a stream, a frame with START inside a message, and a
  -- body between one byte and the maximum, is an error, with exactly that frame read.
  read_rest_restarted :
      (fuel : ℕ) (buffer : List ℕ) (f : Frame) (rest : List ℕ) (s : S)
      → Fits f.body
      → f.flags.start ≡ true
      → st.incoming s ≡ wire f ++ rest
      → (t : S) × (read_rest c (suc fuel) buffer s
          ≡ (done (bail "received two frames with the START flag set"), t))
        × (st.incoming t ≡ rest)
  unfolding read_rest
  read_rest_restarted fuel buffer f rest s fits h e =
      let r = read_frame-Runs st buffer f rest s fits.0 fits.1 e in
      (r.state, rw (r.result, h) refl, r.input)

  module _ {T : Type 0} (m : Message T) where
    -- On a channel that keeps the promise of a stream, a message whose first frame has no START
    -- flag, and a body between one byte and the maximum, is an error, with exactly that frame
    -- read.
    pub read_message_unstarted :
        (fuel : ℕ) (f : Frame) (rest : List ℕ) (s : S)
        → Fits f.body
        → f.flags.start ≡ false
        → st.incoming s ≡ wire f ++ rest
        → (t : S) × (read_message c m fuel s
            ≡ (done (bail "expected a frame with the START flag set"), t))
          × (st.incoming t ≡ rest)
    unfolding read_message
    read_message_unstarted fuel f rest s fits h e =
        let r = read_frame-Runs st [] f rest s fits.0 fits.1 e in
        (r.state, rw (r.result, h) refl, r.input)

    -- On a channel that keeps the promise of a stream, a frame with START and without END, of a
    -- body between one byte and the maximum, whose length prefix is missing or less than the
    -- maximum frame body, makes `read_message` panic.
    pub read_message_panics :
        (fuel : ℕ) (f : Frame) (rest : List ℕ) (s : S)
        → Fits f.body
        → f.flags.start ≡ true
        → f.flags.end ≡ false
        → (length f.body < 4) ⊎ (from_le_bytes (take 4 f.body) < max_body_size)
        → st.incoming s ≡ wire f ++ rest
        → (t : S) × (read_message c m fuel s ≡ (done panic, t))
    unfolding read_message
    read_message_panics fuel f rest s fits h g bad e =
        let r = read_frame-Runs st [] f rest s fits.0 fits.1 e in
        (r.state, rw (r.result, h, g, reserve_for_panics f.body r.state bad) refl)
