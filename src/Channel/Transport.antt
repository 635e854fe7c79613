-- ===== src/Channel/Transport.antt =====
-- The traits `Read`, `Write` and `Channel` of oak_channel/src/lib.rs, and the computations that
-- use a channel: they pass its state on, and stop at an error or a panic.
use not_an_oak_fork.Base.{
  ℕ, ◌≤◌, ◌≡◌, String, List, ◌∷◌, ◌++◌, Result, ok, err, panic, length, take, drop,
}

-- The last result is that of a loop whose fuel ran out; with enough fuel it does not occur.
pub data Outcome (A : Type 0) : Type 0 where
  done : Result A → Outcome A
  unfinished : Outcome A

module _ (S : Type 0) where
  abbrev pub M : Type 0 → Type 0
  M A = S → Outcome A × S

  -- `read_exact` fills a buffer of the given length; `write_all` takes a whole slice.
  pub record Channel : Type 0 where
    pub read_exact : ℕ → M (List ℕ)
    pub write_all : List ℕ → M (Unit {0})
    pub flush : M (Unit {0})

  -- What the traits promise of a channel whose peer has sent `incoming` and has been sent
  -- `outgoing`: reads take what is there, in order, and writes are delivered whole and in order.
  pub record IsStream (c : Channel) : Type 0 where
    pub incoming : S → List ℕ
    pub outgoing : S → List ℕ
    pub reads :
        (n : ℕ) (s : S)
        → n ≤ length (incoming s)
        → (t : S) × (c.read_exact n s ≡ (done (ok (take n (incoming s))), t))
          × (incoming t ≡ drop n (incoming s))
          × (outgoing t ≡ outgoing s)
    pub writes :
        (bytes : List ℕ) (s : S)
        → (t : S) × (c.write_all bytes s ≡ (done (ok tt), t))
          × (incoming t ≡ incoming s)
          × (outgoing t ≡ outgoing s ++ bytes)
    pub flushes :
        (s : S)
        → (t : S) × (c.flush s ≡ (done (ok tt), t))
          × (incoming t ≡ incoming s)
          × (outgoing t ≡ outgoing s)

module _ {S : Type 0} where
  abbrev pub lift : {A : Type 0} → Result A → M S A
  lift r s = (done r, s)

  abbrev pub bind_outcome : {A B : Type 0} → Outcome A × S → (A → M S B) → Outcome B × S
  bind_outcome (done (ok a), s) f = f a s
  bind_outcome (done (err e), s) f = (done (err e), s)
  bind_outcome (done panic, s) f = (done panic, s)
  bind_outcome (unfinished, s) f = (unfinished, s)

  infixl 5 ◌>>=◌ ◌>>◌
  abbrev pub ◌>>=◌ : {A B : Type 0} → M S A → (A → M S B) → M S B
  ◌>>=◌ m f s = bind_outcome (m s) f

  abbrev pub ◌>>◌ : {B : Type 0} → M S (Unit {0}) → M S B → M S B
  m >> k = m >>= λ _. k

  abbrev pub context_outcome : {A : Type 0} → String → Outcome A × S → Outcome A × S
  context_outcome m (done (ok a), s) = (done (ok a), s)
  context_outcome m (done (err e), s) = (done (err (m ∷ e)), s)
  context_outcome m (done panic, s) = (done panic, s)
  context_outcome m (unfinished, s) = (unfinished, s)

  -- `.context(…)` on the result of a computation
  abbrev pub in_context : {A : Type 0} → String → M S A → M S A
  in_context m a s = context_outcome m (a s)
