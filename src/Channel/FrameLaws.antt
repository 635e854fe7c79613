-- ===== src/Channel/FrameLaws.antt =====
-- Frames on a channel: what is written, and what is read back.
use mathlib.Core.List.{append_assoc}
use not_an_oak_fork.Base.{
  ℕ, ◌+◌, ◌≤◌, ◌<◌, ◌^◌, ◌≡◌, refl, ◌∙◌, List, ◌++◌, ok, arith, length, to_le_bytes,
  from_le_bytes-to_le_bytes, lt→ltb,
}
use not_an_oak_fork.Channel.Transport.{Channel, IsStream}
use not_an_oak_fork.Channel.Frame.{
  Flags, Frame, padding, length_size, flags_size, body_offset, max_body_size, bits, write,
  from_bits_truncate, check_length, read_body, read_frame, write_frame,
}
use not_an_oak_fork.Channel.Wire.{
  wire, Runs, Runs-lift, Runs-bind, Runs-read, Runs-write, Runs-flush, Runs-read_then,
  Runs-write_then,
}

pub from_bits_truncate-bits : (f : Flags) → from_bits_truncate (bits f) ≡ f
unfolding from_bits_truncate bits
from_bits_truncate-bits f = ground arith

bits-lt : (f : Flags) → bits f < 4
unfolding bits
bits-lt f = ground arith

pub check_length-ok :
    (n : ℕ) → 0 < n → n ≤ max_body_size → check_length (body_offset + n) ≡ ok (body_offset + n)
unfolding check_length
check_length-ok n p h = ground arith

module _ {S : Type 0} {c : Channel S} (st : IsStream S c) where
  write-Runs :
      (f : Frame) (s : S)
      → length f.body ≤ max_body_size
      → Runs st (write c f) s tt (st.incoming s) (st.outgoing s ++ wire f)
  unfolding write
  write-Runs f s h = rw (lt→ltb (body_offset + length f.body) (2 ^ 16) (omega arith)) (
      Runs-write_then st padding _ s λ t₁ i₁ o₁. Runs-write_then st _ _ t₁ λ t₂ i₂ o₂.
        Runs-write_then st _ _ t₂ λ t₃ i₃ o₃.
          let r = Runs-write st f.body t₃ in
          record {
            state = r.state;
            result = r.result;
            input = r.input ∙ i₃ ∙ i₂ ∙ i₁;
            output = r.output ∙ rw (o₃, o₂, o₁) (simp append_assoc);
          })

  -- A frame goes out as its bytes, whatever is waiting to be read.
  pub write_frame-Runs :
      (f : Frame) (s : S)
      → length f.body ≤ max_body_size
      → Runs st (write_frame c f) s tt (st.incoming s) (st.outgoing s ++ wire f)
  unfolding write_frame
  write_frame-Runs f s h =
      Runs-bind st _ _ s (write-Runs f s h) (λ t i o. rw (← i, ← o) (Runs-flush st t))

  pub read_body-Runs :
      (buffer : List ℕ) (fl : Flags) (body rest : List ℕ) (s : S)
      → st.incoming s ≡ body ++ rest
      → Runs st
          (read_body c buffer (body_offset + length body) fl)
          s
          (record { flags = fl; body = body }, buffer ++ body)
          rest
          (st.outgoing s)
  unfolding read_body
  read_body-Runs buffer fl body rest s h =
      Runs-bind st _ _ s (Runs-read st body rest _ s (omega arith) h)
        (λ t i o. rw (← i, ← o) (Runs-lift st _ t))

  pub read_frame-Runs :
      (buffer : List ℕ) (f : Frame) (rest : List ℕ) (s : S)
      → 0 < length f.body
      → length f.body ≤ max_body_size
      → st.incoming s ≡ wire f ++ rest
      → Runs st (read_frame c buffer) s (f, buffer ++ f.body) rest (st.outgoing s)
  unfolding read_frame
  read_frame-Runs buffer f rest s p h e = Runs-read_then st padding _ _ _ s refl e λ t₁ i₁ o₁.
      Runs-read_then st (to_le_bytes length_size len) _ _ _ t₁ refl i₁ λ t₂ i₂ o₂.
        rw
          (
            from_le_bytes-to_le_bytes length_size len (omega arith),
            check_length-ok (length f.body) p h,
          )
          (Runs-read_then st (to_le_bytes flags_size (bits f.flags)) _ _ _ t₂ refl i₂ λ t₃ i₃ o₃.
            rw
              (
                from_le_bytes-to_le_bytes flags_size (bits f.flags)
                    (omega (arith, bits-lt f.flags)),
                from_bits_truncate-bits f.flags,
                ← o₁,
                ← o₂,
                ← o₃,
              )
              (read_body-Runs buffer f.flags f.body rest t₃ i₃))
    where
      len : ℕ
      len = body_offset + length f.body
