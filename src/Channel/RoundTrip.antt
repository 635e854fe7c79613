-- ===== src/Channel/RoundTrip.antt =====
-- Messages over a channel: what `write_message` sends, `read_message` receives.
use mathlib.Core.List.{append_assoc, append-nil}
use not_an_oak_fork.Base.{
  ℕ, zero, suc, ◌≤◌, ◌≡◌, sym, ◌∙◌, List, [], ◌∷◌, ◌++◌, arith, length, take, from_le_bytes,
  length-append, take-append_of_le, subst, le→ltb_false,
}
use not_an_oak_fork.Channel.Transport.{Channel, IsStream}
use not_an_oak_fork.Channel.Frame.{Frame, max_body_size}
use not_an_oak_fork.Channel.Wire.{
  wire, wires, Runs, Runs-lift, Runs-lift_eq, Runs-bind, Runs-context,
}
use not_an_oak_fork.Channel.FrameLaws.{write_frame-Runs, read_frame-Runs}
use not_an_oak_fork.Channel.Chunks.{bodies, IsTail, IsMessage, bytes_into_frames-IsMessage}
use not_an_oak_fork.Channel.Message.{Message}
use not_an_oak_fork.Channel.MessageLaws.{Encodes}
use not_an_oak_fork.Channel.Invocation.{
  read_rest, reserve_for, read_message, write_frames, write_message,
}

abbrev Small : List Frame → Type 0
Small [] = Unit {0}
Small (f ∷ fs) = (length f.body ≤ max_body_size) × Small fs

IsTail-Small : (fs : List Frame) → IsTail fs → Small fs
IsTail-Small [] h = tt
IsTail-Small (f ∷ []) h = (h.2.1, tt)
IsTail-Small (f ∷ g ∷ fs) h = (h.2.1, IsTail-Small (g ∷ fs) h.3)

IsMessage-Small : (fs : List Frame) → IsMessage fs → Small fs
IsMessage-Small [] h = tt
IsMessage-Small (f ∷ []) h = (h.2.1, tt)
IsMessage-Small (f ∷ g ∷ fs) h = (omega (arith, h.2), IsTail-Small (g ∷ fs) h.3)

module _ {S : Type 0} {c : Channel S} (st : IsStream S c) where
  write_frames-Runs :
      (fs : List Frame) (s : S)
      → Small fs
      → Runs st (write_frames c fs) s tt (st.incoming s) (st.outgoing s ++ wires fs)
  unfolding write_frames
  write_frames-Runs [] s h = rw (append-nil) (Runs-lift st tt s)
  write_frames-Runs (f ∷ fs) s h =
      Runs-bind st _ _ s (Runs-context st _ _ s (write_frame-Runs st f s h.0)) λ t i o.
        rw (← append_assoc (st.outgoing s) (wire f) (wires fs), ← i, ← o)
          (write_frames-Runs fs t h.1)

  read_rest-Runs :
      (fs : List Frame) (fuel : ℕ) (buffer rest : List ℕ) (s : S)
      → length fs ≤ fuel
      → IsTail fs
      → st.incoming s ≡ wires fs ++ rest
      → Runs st (read_rest c fuel buffer) s (buffer ++ bodies fs) rest (st.outgoing s)
  unfolding read_rest
  read_rest-Runs [] fuel buffer rest s n h e = absurd h
  read_rest-Runs (f ∷ fs) zero buffer rest s n h e = absurd (omega arith)
  read_rest-Runs (f ∷ []) (suc fuel) buffer rest s n h e =
      Runs-bind st _ _ s
        (Runs-context st _ _ s
          (read_frame-Runs st buffer f rest s h.2.0 h.2.1 (e ∙ append_assoc (wire f) [] rest)))
        λ t i o. rw (h.0, h.1, append-nil, ← i, ← o) (Runs-lift st _ t)
  read_rest-Runs (f ∷ g ∷ fs) (suc fuel) buffer rest s n h e =
      Runs-bind st _ _ s
        (Runs-context st _ _ s (
          read_frame-Runs st buffer f (wires (g ∷ fs) ++ rest) s h.2.0 h.2.1
            (e ∙ append_assoc (wire f) (wires (g ∷ fs)) rest)))
        λ t i o.
          rw (h.0, h.1, ← append_assoc buffer f.body (bodies (g ∷ fs)), ← o)
            (read_rest-Runs (g ∷ fs) fuel (buffer ++ f.body) rest t (omega arith) h.3 i)

  reserve_for-Runs :
      (body more : List ℕ) (s : S)
      → length body ≡ max_body_size
      → from_le_bytes (take 4 (body ++ more)) ≡ length (body ++ more)
      → Runs st (reserve_for c body) s tt (st.incoming s) (st.outgoing s)
  unfolding reserve_for
  reserve_for-Runs body more s full counted =
      rw
        (
          le→ltb_false (length body) 4 (omega arith),
          ← take-append_of_le 4 body more (omega arith),
          counted,
          le→ltb_false (length (body ++ more)) max_body_size
              (omega (arith, length-append body more)),
        )
        (Runs-lift st tt s)

  module _ {T : Type 0} (m : Message T) where
    read_frames-Runs :
        (fs : List Frame) (fuel : ℕ) (t : T) (rest : List ℕ) (s : S)
        → length fs ≤ fuel
        → IsMessage fs
        → Encodes m t (bodies fs)
        → st.incoming s ≡ wires fs ++ rest
        → Runs st (read_message c m fuel) s t rest (st.outgoing s)
    unfolding read_message
    read_frames-Runs [] fuel t rest s n h en e = absurd h
    read_frames-Runs (f ∷ []) fuel t rest s n h en e =
        Runs-bind st _ _ s
          (Runs-context st _ _ s
            (read_frame-Runs st [] f rest s h.2.0 h.2.1 (e ∙ append_assoc (wire f) [] rest)))
          λ u i o. rw (h.0, h.1, ← append-nil f.body, en.decoded, ← i, ← o) (Runs-lift st t u)
    read_frames-Runs (f ∷ g ∷ fs) fuel t rest s n h en e =
        Runs-bind st _ _ s
          (Runs-context st _ _ s (
            read_frame-Runs st [] f (wires (g ∷ fs) ++ rest) s (omega (arith, h.2))
              (omega (arith, h.2)) (e ∙ append_assoc (wire f) (wires (g ∷ fs)) rest)))
          λ u i o.
            rw (h.0, h.1)
              (Runs-bind st _ _ u (reserve_for-Runs f.body (bodies (g ∷ fs)) u h.2 en.counted)
                λ v j p.
                  Runs-bind st _ _ v
                    (read_rest-Runs (g ∷ fs) fuel f.body rest v (omega arith) h.3 (j ∙ i))
                    λ w k q. rw (en.decoded, ← k, ← o, ← p, ← q) (Runs-lift st t w))

length-le-wires : (fs : List Frame) → length fs ≤ length (wires fs)
length-le-wires [] = omega arith
length-le-wires (f ∷ fs) =
    omega (
      arith,
      length-append f.body (wires fs),
      length-append (wire f) (wires fs),
      length-le-wires fs,
    )

-- A message that the message type encodes and decodes again, with its length in front, sent
-- over one channel and received over another, both of which keep the promise of a stream:
-- `write_message` succeeds from every state and puts out one string of bytes, the same each
-- time; and `read_message`, where that string comes next and the fuel is at least its length,
-- returns the message, leaves what follows unread and writes nothing.
pub read_message-write_message :
    {S S' T : Type 0} {c : Channel S} {c' : Channel S'} (st : IsStream S c) (st' : IsStream S' c')
    (m : Message T) (t : T) (bytes : List ℕ)
    → Encodes m t bytes
    → (w : List ℕ) × ((s : S)
        → Runs st (write_message c m t) s tt (st.incoming s) (st.outgoing s ++ w))
      × ((fuel : ℕ) (s : S') (rest : List ℕ)
          → length w ≤ fuel
          → st'.incoming s ≡ w ++ rest
          → Runs st' (read_message c' m fuel) s t rest (st'.outgoing s))
unfolding write_message
read_message-write_message st st' m t [] en = absurd (omega (arith, en.headed))
read_message-write_message {c = c} st st' m t (x ∷ xs) en =
    let (fs, made, whole, joined) = bytes_into_frames-IsMessage x xs in
    (
      wires fs,
      λ s. Runs-bind st _ _ s (Runs-lift_eq st s en.encoded) λ u i o.
          Runs-bind st _ _ u (Runs-lift_eq st u made)
            λ v j p. rw (← i, ← o, ← j, ← p) (write_frames-Runs st fs v (IsMessage-Small fs whole)),
      λ fuel s rest n e.
          read_frames-Runs st' m fs fuel t rest s (omega (arith, length-le-wires fs)) whole
            (subst (Encodes m t) (sym joined) en) e,
    )
