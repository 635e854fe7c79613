-- ===== src/Lookup/Placed.antt =====
-- Slots in which every key is where its probing ends: what writing a slot does to the search for
-- each key, and why a search ends.
use not_an_oak_fork.Base.{
  ℕ, zero, suc, ◌+◌, ◌-◌, ◌<◌, ◌≡◌, ◌≢◌, refl, sym, ap, ◌∙◌, subst, ◌⊎◌, inl, inr, false,
  Bool-cases, Option-cases, if◌then◌else◌, leb, ◌==◌, ==_iff, some, none, List, bytes_eq, arith,
}
use not_an_oak_fork.Lookup.Slots.{
  Slots, at, vacant, lost, step, seek, fill, bytes_eq_refl, fill_self, fill_ne, step-lt,
}

-- Slot `j` is empty or holds `k`.
abbrev pub Fits : Slots → ℕ → List ℕ → Type 0
Fits s j k = (s j ≡ none) ⊎ ((w : List ℕ) × (s j ≡ some (k, w)))

other-ne :
    (s : Slots) (i j : ℕ) (k k' v' : List ℕ)
    → s i ≡ some (k', v')
    → bytes_eq k k' ≡ false
    → Fits s j k
    → i ≢ j
other-ne s i j k k' v' p z (inl q) e = let r = ap s e in cc
other-ne s i j k k' v' p z (inr (w, q)) e =
    let r : some (k', v') ≡ some (k, w) = sym p ∙ ap s e ∙ q in
    let kk : k' ≡ k = cc in
    let t = bytes_eq_refl k in
    let u : bytes_eq k k ≡ false = subst (λ x. bytes_eq k x ≡ false) kk z in cc

module _ (n j : ℕ) (s : Slots) (k v : List ℕ) (fits : Fits s j k) where
  -- a slot with another key stays
  stays :
      (i : ℕ) (k' v' : List ℕ)
      → s i ≡ some (k', v')
      → bytes_eq k k' ≡ false
      → fill s j k v i ≡ some (k', v')
  stays i k' v' p z = fill_ne s i j k v (other-ne s i j k k' v' p z fits) ∙ p

  pub seek-fill_vacant :
      (r i : ℕ) → seek r n s i k ≡ vacant j → seek r n (fill s j k v) i k ≡ at j v
  unfolding seek
  seek-fill_vacant zero i e = cc
  seek-fill_vacant (suc r) i e = elim (Option-cases (s i)) [
    | inl p ↦
        let q = rw p at e in let ij : i ≡ j = cc in rw (ij, fill_self s j k v, bytes_eq_refl k) refl
    | inr ((k', v'), p) ↦ elim (Bool-cases (bytes_eq k k')) [
      | inl y ↦ absurd (let q = rw (p, y) at e in cc)
      | inr z ↦ rw (stays i k' v' p z, z) (seek-fill_vacant r (step n i) (rw (p, z) at e))
    ]
  ]

  pub seek-fill_at :
      (r i : ℕ) {w : List ℕ} → seek r n s i k ≡ at j w → seek r n (fill s j k v) i k ≡ at j v
  unfolding seek
  seek-fill_at zero i e = cc
  seek-fill_at (suc r) i e = elim (Option-cases (s i)) [
    | inl p ↦ absurd (let q = rw p at e in cc)
    | inr ((k', v'), p) ↦ elim (Bool-cases (bytes_eq k k')) [
      | inl y ↦
          let q = rw (p, y) at e in
          let ij : i ≡ j = cc in rw (ij, fill_self s j k v, bytes_eq_refl k) refl
      | inr z ↦ rw (stays i k' v' p z, z) (seek-fill_at r (step n i) (rw (p, z) at e))
    ]
  ]

  -- the search for another key finds what it found
  pub seek-fill_other :
      (r i : ℕ) (o : List ℕ) {m : ℕ} {w : List ℕ}
      → bytes_eq o k ≡ false
      → seek r n s i o ≡ at m w
      → seek r n (fill s j k v) i o ≡ at m w
  unfolding seek
  seek-fill_other zero i o z e = cc
  seek-fill_other (suc r) i o {m} {w} z e = elim (Bool-cases (i == j)) [
    | inl y ↦
        let ij = (==_iff i j).0 y in
        let passed : seek r n s (step n i) o ≡ at m w = elim fits [
          | inl p ↦ absurd (let q = rw (ij, p) at e in cc)
          | inr (u, p) ↦ rw (ap s ij ∙ p, z) at e
        ] in
        rw (y, z) (seek-fill_other r (step n i) o z passed)
    | inr t ↦ elim (Option-cases (s i)) [
      | inl p ↦ absurd (let q = rw p at e in cc)
      | inr ((k', v'), p) ↦ elim (Bool-cases (bytes_eq o k')) [
        | inl x ↦ rw (t, p, x) (rw (p, x) at e)
        | inr x ↦ rw (t, p, x) (seek-fill_other r (step n i) o z (rw (p, x) at e))
      ]
    ]
  ]

-- how many slots lie between `i` and `e`, going round
abbrev distance : ℕ → ℕ → ℕ → ℕ
distance n i e = if leb i e then e - i else e + n - i

-- A search that starts near enough to an empty slot ends.
seek-ne-lost_near :
    (r n i e : ℕ) (s : Slots) (k : List ℕ)
    → i < n
    → e < n
    → s e ≡ none
    → distance n i e < r
    → seek r n s i k ≢ lost
unfolding seek
seek-ne-lost_near zero n i e s k h g p d = absurd (omega arith)
seek-ne-lost_near (suc r) n i e s k h g p d = elim (Option-cases (s i)) [
  | inl q ↦ rw q (λ x. cc)
  | inr ((k', v'), q) ↦ elim (Bool-cases (bytes_eq k k')) [
    | inl y ↦ rw (q, y) (λ x. cc)
    | inr z ↦
        let ne : i ≢ e = λ x. let t = ap s x in cc in
        rw (q, z) (seek-ne-lost_near r n (step n i) e s k (step-lt n i h) g p (ground arith))
  ]
]

pub seek-ne-lost :
    (n i e : ℕ) (s : Slots) (k : List ℕ) → i < n → e < n → s e ≡ none → seek n n s i k ≢ lost
seek-ne-lost n i e s k h g p = seek-ne-lost_near n n i e s k h g p (ground arith)
