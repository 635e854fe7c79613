-- ===== src/Channel/BasicFramedLaws.antt =====
-- Payloads over the basic framed transport: each side's output is what the other reads.
use mathlib.Core.List.{append_assoc}
use not_an_oak_fork.Base.{
  ℕ, zero, suc, ◌+◌, ◌*◌, ◌/◌, ◌%◌, ◌^◌, ◌<◌, ◌≡◌, refl, subst, sym, ap, ◌∙◌, List, ◌++◌, arith,
  length, take, drop, to_le_bytes, from_le_bytes-to_le_bytes, length-take, length-drop,
  take-append-drop, lt→ltb, ==_iff,
}
use not_an_oak_fork.Channel.Transport.{M, Channel, IsStream}
use not_an_oak_fork.Channel.Wire.{
  Runs, Runs-lift, Runs-bind, Runs-write, Runs-read_then, Runs-write_then,
}
use not_an_oak_fork.Channel.BasicFramed.{
  chunk_size, expecting, read_chunk, receive_chunks, receive_raw, write_chunk, send_chunks,
  send_raw,
}

-- the acknowledgements of full chunks and of the remainder
abbrev pub acks : ℕ → ℕ → ℕ → List ℕ
acks size zero remainder = to_le_bytes 4 remainder
acks size (suc n) remainder = to_le_bytes 4 size ++ acks size n remainder

module _ {S : Type 0} {c : Channel S} (st : IsStream S c) where
  read_chunk-Runs :
      (xs rest : List ℕ) (n : ℕ) (s : S)
      → length xs ≡ n
      → n < 2 ^ 32
      → st.incoming s ≡ xs ++ rest
      → Runs st (read_chunk c n) s xs rest (st.outgoing s ++ to_le_bytes 4 n)
  unfolding read_chunk
  read_chunk-Runs xs rest n s e small h = rw (lt→ltb n (2 ^ 32) small) (
      Runs-read_then st xs rest n _ s e h λ t i o.
        Runs-write_then st (to_le_bytes 4 n) _ t
          λ u j p. rw (← i, ← j, ← o, ← p) (Runs-lift st xs u))

  write_chunk-Runs :
      (xs rest : List ℕ) (n : ℕ) (s : S)
      → length xs ≡ n
      → n < 2 ^ 32
      → st.incoming s ≡ to_le_bytes 4 n ++ rest
      → Runs st (write_chunk c xs) s tt rest (st.outgoing s ++ xs)
  unfolding write_chunk
  write_chunk-Runs xs rest n s e small h = Runs-write_then st xs _ s λ t i o.
      Runs-read_then st (to_le_bytes 4 n) rest 4 _ t refl (i ∙ h) λ u j p.
        rw (from_le_bytes-to_le_bytes 4 n small, (==_iff n (length xs)).1 (sym e), ← j, ← o, ← p)
          (Runs-lift st tt u)

  receive_chunks-Runs :
      (size n r : ℕ) (xs rest : List ℕ) (s : S)
      → size < 2 ^ 32
      → r < 2 ^ 32
      → length xs ≡ n * size + r
      → st.incoming s ≡ xs ++ rest
      → Runs st (receive_chunks c size n r) s xs rest (st.outgoing s ++ acks size n r)
  unfolding receive_chunks
  receive_chunks-Runs size zero r xs rest s p q e h =
      read_chunk-Runs xs rest r s (omega (arith, e)) q h
  receive_chunks-Runs size (suc n) r xs rest s p q e h =
      Runs-bind st _ _ s
        (read_chunk-Runs (take size xs) (drop size xs ++ rest) size s
          (omega (arith, e, length-take size xs)) p
          (h
            ∙ rw (← append_assoc (take size xs) (drop size xs) rest, take-append-drop size xs)
                refl))
        λ t i o.
          Runs-bind st _ _ t
            (receive_chunks-Runs size n r (drop size xs) rest t p q
              (omega (arith, e, length-drop size xs)) i)
            λ u j w.
              rw
                (
                  take-append-drop size xs,
                  ← j,
                  ← append_assoc (st.outgoing s) (to_le_bytes 4 size) (acks size n r),
                  ← o,
                  ← w,
                )
                (Runs-lift st xs u)

  send_chunks-Runs :
      (size n r : ℕ) (xs rest : List ℕ) (s : S)
      → size < 2 ^ 32
      → r < 2 ^ 32
      → length xs ≡ n * size + r
      → st.incoming s ≡ acks size n r ++ rest
      → Runs st (send_chunks c size n xs) s tt rest (st.outgoing s ++ xs)
  unfolding send_chunks
  send_chunks-Runs size zero r xs rest s p q e h =
      write_chunk-Runs xs rest r s (omega (arith, e)) q h
  send_chunks-Runs size (suc n) r xs rest s p q e h =
      Runs-bind st _ _ s
        (write_chunk-Runs (take size xs) (acks size n r ++ rest) size s
          (omega (arith, e, length-take size xs)) p
          (h ∙ append_assoc (to_le_bytes 4 size) (acks size n r) rest))
        λ t i o.
          subst (λ w. Runs st (send_chunks c size n (drop size xs)) t tt rest w)
            (ap (λ w. w ++ drop size xs) o
              ∙ append_assoc (st.outgoing s) (take size xs) (drop size xs)
              ∙ ap (λ w. st.outgoing s ++ w) (take-append-drop size xs))
            (send_chunks-Runs size n r (drop size xs) rest t p q
              (omega (arith, e, length-drop size xs)) i)

  Runs-expecting :
      {A : Type 0} (m : M S A) (s : S) {a : A} {i o : List ℕ}
      → Runs st m s a i o
      → Runs st (expecting m) s a i o
  Runs-expecting m s r = record {
    state = r.state;
    result = rw (r.result) refl;
    input = r.input;
    output = r.output;
  }

module _ {S S' : Type 0} {sender : Channel S} {recipient : Channel S'} (st : IsStream S sender)
    (st' : IsStream S' recipient) where
  -- A payload of less than 2^32 bytes between two channels that keep the promise of a stream:
  -- there are two strings of bytes such that `send_raw`, where the second comes next, succeeds,
  -- takes it and puts out the first; and `receive_raw`, where the first comes next, returns the
  -- payload, takes it and puts out the second.
  pub receive_raw-send_raw :
      (payload : List ℕ)
      → length payload < 2 ^ 32
      → (w acknowledged : List ℕ) × ((s : S) (rest : List ℕ)
          → st.incoming s ≡ acknowledged ++ rest
          → Runs st (send_raw sender payload) s tt rest (st.outgoing s ++ w))
        × ((s : S') (rest : List ℕ)
            → st'.incoming s ≡ w ++ rest
            → Runs st' (receive_raw recipient) s payload rest (st'.outgoing s ++ acknowledged))
  unfolding receive_raw send_raw
  receive_raw-send_raw payload small = (
    to_le_bytes 4 (length payload) ++ payload,
    acks chunk_size (length payload / chunk_size) (length payload % chunk_size),
    λ s rest h. rw (no_wrap) (
        Runs-bind st _ _ s (Runs-expecting st _ s (Runs-write st (to_le_bytes 4 len) s)) λ t i o.
          subst
            (λ w. Runs st (send_chunks sender chunk_size (len / chunk_size) payload) t tt rest w)
            (ap (λ w. w ++ payload) o ∙ append_assoc (st.outgoing s) (to_le_bytes 4 len) payload)
            (send_chunks-Runs st chunk_size (len / chunk_size) (len % chunk_size) payload rest t
              (omega arith) (omega arith) (omega arith) (i ∙ h))),
    λ s rest h.
        Runs-read_then st' (to_le_bytes 4 len) (payload ++ rest) 4 _ s refl
          (h ∙ append_assoc (to_le_bytes 4 len) payload rest)
          λ t i o.
            rw (from_le_bytes-to_le_bytes 4 len small, ← o)
              (receive_chunks-Runs st' chunk_size (len / chunk_size) (len % chunk_size) payload rest
                t (omega arith) (omega arith) (omega arith) i),
  )
    where
      len : ℕ
      len = length payload

      no_wrap : length payload % 2 ^ 32 ≡ length payload
      no_wrap = omega (arith, small)
