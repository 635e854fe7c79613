-- ===== src/Channel/Termination.antt =====
-- The loop of `read_message` ends, whatever the peer sends.
use not_an_oak_fork.Base.{
  ℕ, zero, suc, ◌+◌, ◌≤◌, ◌<◌, ◌≡◌, ◌≢◌, refl, inl, inr, Bool-cases, String, List, [], ◌∷◌, Error,
  Result, ok, err, panic, arith, length, take, ltb, from_le_bytes,
}
use not_an_oak_fork.Channel.Transport.{M, Channel, done, unfinished, lift, in_context, ◌>>=◌}
use not_an_oak_fork.Channel.Frame.{
  check_length, read_body, read_frame, max_body_size, padding_size, length_size, flags_size,
}
use not_an_oak_fork.Channel.Message.{Message}
use not_an_oak_fork.Channel.Invocation.{read_rest, reserve_for, read_message}

module _ {S : Type 0} (left : S → ℕ) where
  -- `m` returns with at least `k` bytes less left to read, or stops with an error or a panic.
  pub data Shrinks {A : Type 0} (k : ℕ) (m : M S A) (s : S) : Type 0 where
    returns : (a : A) (t : S) → m s ≡ (done (ok a), t) → k + left t ≤ left s → Shrinks k m s
    fails : (e : Error) (t : S) → m s ≡ (done (err e), t) → Shrinks k m s
    panics : (t : S) → m s ≡ (done panic, t) → Shrinks k m s

  -- What is asked of the channel: a read takes what it returns off what is left.
  abbrev pub IsFinite : Channel S → Type 0
  IsFinite c = (n : ℕ) (s : S) → Shrinks n (c.read_exact n) s

module _ {S : Type 0} {left : S → ℕ} where
  Shrinks-bind :
      {A B : Type 0} {k j : ℕ} (m : M S A) (f : A → M S B) (s : S)
      → Shrinks left k m s
      → ((a : A) (t : S) → k + left t ≤ left s → Shrinks left j (f a) t)
      → Shrinks left (k + j) (m >>= f) s
  Shrinks-bind m f s (Shrinks.returns a t e b) next = elim (next a t b) [
    | Shrinks.returns a' t' e' b' ↦ Shrinks.returns a' t' (rw e e') (omega (arith, b, b'))
    | Shrinks.fails x t' e' ↦ Shrinks.fails x t' (rw e e')
    | Shrinks.panics t' e' ↦ Shrinks.panics t' (rw e e')
  ]
  Shrinks-bind m f s (Shrinks.fails x t e) next = Shrinks.fails x t (rw e refl)
  Shrinks-bind m f s (Shrinks.panics t e) next = Shrinks.panics t (rw e refl)

  Shrinks-lift : {A : Type 0} (r : Result A) (s : S) → Shrinks left 0 (lift r) s
  Shrinks-lift (ok a) s = Shrinks.returns a s refl (omega arith)
  Shrinks-lift (err e) s = Shrinks.fails e s refl
  Shrinks-lift panic s = Shrinks.panics s refl

  Shrinks-context :
      {A : Type 0} {k : ℕ} (w : String) (m : M S A) (s : S)
      → Shrinks left k m s
      → Shrinks left k (in_context w m) s
  Shrinks-context w m s (Shrinks.returns a t e b) = Shrinks.returns a t (rw e refl) b
  Shrinks-context w m s (Shrinks.fails x t e) = Shrinks.fails (w ∷ x) t (rw e refl)
  Shrinks-context w m s (Shrinks.panics t e) = Shrinks.panics t (rw e refl)

  Shrinks-weaken :
      {A : Type 0} {k : ℕ} (j : ℕ) (m : M S A) (s : S)
      → j ≤ k
      → Shrinks left k m s
      → Shrinks left j m s
  Shrinks-weaken j m s h (Shrinks.returns a t e b) = Shrinks.returns a t e (omega (arith, b, h))
  Shrinks-weaken j m s h (Shrinks.fails x t e) = Shrinks.fails x t e
  Shrinks-weaken j m s h (Shrinks.panics t e) = Shrinks.panics t e

  module _ (c : Channel S) (finite : IsFinite left c) where
    read_frame-Shrinks : (buffer : List ℕ) (s : S) → Shrinks left 1 (read_frame c buffer) s
    unfolding read_frame read_body
    read_frame-Shrinks buffer s = Shrinks-weaken 1 _ s (omega arith) (
        Shrinks-bind _ _ s (finite padding_size s) λ _ t _. Shrinks-weaken 0 _ t (omega arith) (
          Shrinks-bind _ _ t (finite length_size t) λ bytes u _.
            Shrinks-bind _ _ u (Shrinks-lift (check_length (from_le_bytes bytes)) u) λ len v _.
              Shrinks-weaken 0 _ v (omega arith) (
                Shrinks-bind _ _ v (finite flags_size v) λ flags w _.
                  Shrinks-weaken 0 _ w (omega arith)
                    (Shrinks-bind _ _ w (finite _ w) λ body z _. Shrinks-lift _ z))))

    read_rest-Shrinks :
        (fuel : ℕ) (buffer : List ℕ) (s : S)
        → left s < fuel
        → Shrinks left 0 (read_rest c fuel buffer) s
    unfolding read_rest
    read_rest-Shrinks zero buffer s h = absurd (omega arith)
    read_rest-Shrinks (suc fuel) buffer s h = Shrinks-weaken 0 _ s (omega arith) (
        Shrinks-bind {j = 0} _ _ s (Shrinks-context _ _ s (read_frame-Shrinks buffer s)) λ r t b.
          elim (Bool-cases r.0.flags.start) [
            | inl e ↦ rw e (Shrinks-lift _ t)
            | inr e ↦ elim (Bool-cases r.0.flags.end) [
              | inl g ↦ rw (e, g) (Shrinks-lift _ t)
              | inr g ↦ rw (e, g) (read_rest-Shrinks fuel r.1 t (omega (arith, b, h)))
            ]
          ])

    reserve_for-Shrinks : (body : List ℕ) (s : S) → Shrinks left 0 (reserve_for c body) s
    unfolding reserve_for
    reserve_for-Shrinks body s = elim (Bool-cases (ltb (length body) 4)) [
      | inl e ↦ rw e (Shrinks.panics s refl)
      | inr e ↦ elim (Bool-cases (ltb (from_le_bytes (take 4 body)) max_body_size)) [
        | inl g ↦ rw (e, g) (Shrinks.panics s refl)
        | inr g ↦ rw (e, g) (Shrinks-lift (ok tt) s)
      ]
    ]

    module _ {T : Type 0} (m : Message T) where
      read_message-Shrinks :
          (fuel : ℕ) (s : S) → left s ≤ fuel → Shrinks left 0 (read_message c m fuel) s
      unfolding read_message
      read_message-Shrinks fuel s h = Shrinks-weaken 0 _ s (omega arith) (
          Shrinks-bind {j = 0} _ _ s (Shrinks-context _ _ s (read_frame-Shrinks [] s)) λ r t b.
            elim (Bool-cases r.0.flags.start) [
              | inl e ↦ elim (Bool-cases r.0.flags.end) [
                | inl g ↦ rw (e, g) (Shrinks-lift (m.decode r.1) t)
                | inr g ↦
                    rw (e, g)
                      (Shrinks-bind _ _ t (reserve_for-Shrinks r.0.body t) λ _ u d.
                        Shrinks-bind _ _ u (read_rest-Shrinks fuel r.1 u (omega (arith, b, d, h)))
                          λ buffer v _. Shrinks-lift (m.decode buffer) v)
              ]
              | inr e ↦ rw e (Shrinks-lift _ t)
            ])

      -- On a channel whose reads take what they return off a finite stock of bytes,
      -- `read_message` with fuel for the bytes that are left never runs out of it: whatever
      -- those bytes are, it returns a message or stops with an error or a panic.
      pub read_message-ends :
          (fuel : ℕ) (s : S) → left s ≤ fuel → (read_message c m fuel s).0 ≢ unfinished
      read_message-ends fuel s h e = elim (read_message-Shrinks fuel s h) [
        | Shrinks.returns a t r b ↦ cc (e, r)
        | Shrinks.fails x t r ↦ cc (e, r)
        | Shrinks.panics t r ↦ cc (e, r)
      ]
