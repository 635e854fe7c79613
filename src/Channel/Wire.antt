-- ===== src/Channel/Wire.antt =====
-- How a frame lies on the wire, and what it takes for a computation on a channel to run to the
-- end: the reasoning behind the proofs about frames and messages.
use not_an_oak_fork.Base.{
  ℕ, ◌+◌, ◌≡◌, refl, ap, ◌∙◌, String, List, [], ◌∷◌, ◌++◌, Result, ok, arith, length, to_le_bytes,
  length-append, take-append, drop-append,
}
use not_an_oak_fork.Channel.Transport.{M, Channel, IsStream, done, lift, in_context, ◌>>=◌, ◌>>◌}
use not_an_oak_fork.Channel.Frame.{Frame, padding, length_size, flags_size, body_offset, bits}

-- padding, length, flags, body
abbrev pub wire : Frame → List ℕ
wire f =
    padding
    ++ (to_le_bytes length_size (body_offset + length f.body)
        ++ (to_le_bytes flags_size (bits f.flags) ++ f.body))

abbrev pub wires : List Frame → List ℕ
wires [] = []
wires (f ∷ fs) = wire f ++ wires fs

module _ {S : Type 0} {c : Channel S} (st : IsStream S c) where
  -- `p` ends well from `s` with the value `a`; the channel then holds `unread` and has carried
  -- `written`.
  pub record Runs {A : Type 0} (p : M S A) (s : S) (a : A) (unread written : List ℕ) : Type 0 where
    pub state : S
    pub result : p s ≡ (done (ok a), state)
    pub input : st.incoming state ≡ unread
    pub output : st.outgoing state ≡ written

module _ {S : Type 0} {c : Channel S} (st : IsStream S c) where
  pub Runs-lift :
      {A : Type 0} (a : A) (s : S) → Runs st (lift (ok a)) s a (st.incoming s) (st.outgoing s)
  Runs-lift a s = record { state = s; result = refl; input = refl; output = refl }

  pub Runs-lift_eq :
      {A : Type 0} {r : Result A} {a : A} (s : S)
      → r ≡ ok a
      → Runs st (lift r) s a (st.incoming s) (st.outgoing s)
  Runs-lift_eq s e = rw e (Runs-lift _ s)

  pub Runs-bind :
      {A B : Type 0} (p : M S A) (f : A → M S B) (s : S) {a : A} {b : B} {i o i' o' : List ℕ}
      → Runs st p s a i o
      → ((t : S) → st.incoming t ≡ i → st.outgoing t ≡ o → Runs st (f a) t b i' o')
      → Runs st (p >>= f) s b i' o'
  Runs-bind p f s {a} {b} r k =
      let n = k r.state r.input r.output in
      record {
        state = n.state;
        result = rw (r.result) n.result;
        input = n.input;
        output = n.output;
      }

  pub Runs-context :
      {A : Type 0} (m : String) (p : M S A) (s : S) {a : A} {i o : List ℕ}
      → Runs st p s a i o
      → Runs st (in_context m p) s a i o
  Runs-context m p s r = record {
    state = r.state;
    result = rw (r.result) refl;
    input = r.input;
    output = r.output;
  }

  -- A read of as many bytes as `xs` has, where `xs` comes next.
  pub Runs-read :
      (xs rest : List ℕ) (n : ℕ) (s : S)
      → length xs ≡ n
      → st.incoming s ≡ xs ++ rest
      → Runs st (c.read_exact n) s xs rest (st.outgoing s)
  Runs-read xs rest n s e h =
      let r = st.reads n s (rw h (omega (arith, length-append xs rest))) in
      record {
        state = r.0;
        result = r.1 ∙ ap (λ t. (done (ok t), r.0)) (rw (h, ← e) (take-append xs rest));
        input = r.2 ∙ rw (h, ← e) (drop-append xs rest);
        output = r.3;
      }

  pub Runs-write :
      (xs : List ℕ) (s : S) → Runs st (c.write_all xs) s tt (st.incoming s) (st.outgoing s ++ xs)
  Runs-write xs s =
      let r = st.writes xs s in record { state = r.0; result = r.1; input = r.2; output = r.3 }

  pub Runs-flush : (s : S) → Runs st c.flush s tt (st.incoming s) (st.outgoing s)
  Runs-flush s =
      let r = st.flushes s in record { state = r.0; result = r.1; input = r.2; output = r.3 }

  -- The same two, followed by the rest of the computation.
  pub Runs-read_then :
      {B : Type 0} (xs rest : List ℕ) (n : ℕ) (f : List ℕ → M S B) (s : S) {b : B} {i' o' : List ℕ}
      → length xs ≡ n
      → st.incoming s ≡ xs ++ rest
      → ((t : S) → st.incoming t ≡ rest → st.outgoing t ≡ st.outgoing s → Runs st (f xs) t b i' o')
      → Runs st (c.read_exact n >>= f) s b i' o'
  Runs-read_then xs rest n f s e h k = Runs-bind _ f s (Runs-read xs rest n s e h) k

  pub Runs-write_then :
      {B : Type 0} (xs : List ℕ) (m : M S B) (s : S) {b : B} {i' o' : List ℕ}
      → ((t : S)
          → st.incoming t ≡ st.incoming s
          → st.outgoing t ≡ st.outgoing s ++ xs
          → Runs st m t b i' o')
      → Runs st (c.write_all xs >> m) s b i' o'
  Runs-write_then xs m s k = Runs-bind _ (λ _. m) s (Runs-write xs s) k
