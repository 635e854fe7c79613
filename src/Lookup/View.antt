-- ===== src/Lookup/View.antt =====
-- What well placed slots mean: a map from keys to values, which writing a slot updates.
use not_an_oak_fork.Base.{
  ℕ, zero, suc, ◌+◌, ◌≤◌, ◌<◌, ◌≡◌, refl, sym, ◌∙◌, subst, ◌⊎◌, inl, inr, false, Bool-cases,
  Option-cases, if◌then◌else◌, ◌==◌, ==_iff, Option, some, none, List, bytes_eq, bytes_eq_iff,
  arith,
}
use not_an_oak_fork.Lookup.Slots.{
  Slots, Seek, at, vacant, lost, seek, fill, seek-at, seek-vacant, fill_ne,
}
use not_an_oak_fork.Lookup.Placed.{
  Fits, seek-fill_vacant, seek-fill_at, seek-fill_other, seek-ne-lost,
}

abbrev pub value_at : Seek → Option (List ℕ)
value_at (at j v) = some v
value_at (vacant j) = none
value_at lost = none

abbrev occupied : Option (List ℕ × List ℕ) → ℕ
occupied none = 0
occupied (some p) = 1

unfoldable pub count : ℕ → Slots → ℕ
count zero s = 0
count (suc n) s = occupied (s n) + count n s

pub Seek-cases :
    (x : Seek) → ((j : ℕ) × (v : List ℕ) × (x ≡ at j v)) ⊎ (((j : ℕ) × (x ≡ vacant j)) ⊎ (x ≡ lost))
Seek-cases (at j v) = inl (j, v, refl)
Seek-cases (vacant j) = inr (inl (j, refl))
Seek-cases lost = inr (inr refl)

pub count-vacancy : (n : ℕ) (s : Slots) → count n s < n → (e : ℕ) × (e < n) × (s e ≡ none)
unfolding count
count-vacancy zero s h = absurd (omega arith)
count-vacancy (suc n) s h = elim (Option-cases (s n)) [
  | inl p ↦ (n, omega arith, p)
  | inr (x, p) ↦
      let (e, g, q) = count-vacancy n s (let h' = rw p at h in omega (arith, h')) in
      (e, omega arith, q)
]

count-fill_above : (n j : ℕ) (s : Slots) (k v : List ℕ) → n ≤ j → count n (fill s j k v) ≡ count n s
unfolding count
count-fill_above zero j s k v h = refl
count-fill_above (suc n) j s k v h =
    rw (fill_ne s n j k v (omega arith), count-fill_above n j s k v (omega arith)) refl

pub count-fill :
    (n j : ℕ) (s : Slots) (k v : List ℕ)
    → j < n
    → count n (fill s j k v) + occupied (s j) ≡ suc (count n s)
unfolding count
count-fill zero j s k v h = absurd (omega arith)
count-fill (suc n) j s k v h = elim (Bool-cases (n == j)) [
  | inl y ↦
      let e = (==_iff n j).0 y in
      rw (y, count-fill_above n j s k v (omega (arith, e)), e) (omega arith)
  | inr z ↦ let ih = count-fill n j s k v (ground arith) in rw z (omega (arith, ih))
]

module _ (n : ℕ) (home : List ℕ → ℕ) where
  abbrev pub find : Slots → List ℕ → Seek
  find s k = seek n n s (home k) k

  -- The search for the key of each slot ends there.
  abbrev pub Placed : Slots → Type 0
  Placed s = (j : ℕ) (k v : List ℕ) → j < n → s j ≡ some (k, v) → find s k ≡ at j v

  unfoldable pub view : Slots → List ℕ → Option (List ℕ)
  view s k = value_at (find s k)

  -- the slot where the search for `k` ends
  abbrev pub Ends : Slots → List ℕ → ℕ → Type 0
  Ends s k j = (find s k ≡ vacant j) ⊎ ((w : List ℕ) × (find s k ≡ at j w))

  module _ (homes : (k : List ℕ) → home k < n) where
    pub Ends-Fits : (s : Slots) (k : List ℕ) (j : ℕ) → Ends s k j → (j < n) × Fits s j k
    Ends-Fits s k j (inl e) = let (h, p) = seek-vacant n n (home k) j s k (homes k) e in (h, inl p)
    Ends-Fits s k j (inr (w, e)) =
        let (h, p) = seek-at n n (home k) j s k w (homes k) e in (h, inr (w, p))

    pub vacant-none : (s : Slots) (k : List ℕ) (j : ℕ) → find s k ≡ vacant j → s j ≡ none
    vacant-none s k j e = (seek-vacant n n (home k) j s k (homes k) e).1

    pub at-some : (s : Slots) (k w : List ℕ) (j : ℕ) → find s k ≡ at j w → s j ≡ some (k, w)
    at-some s k w j e = (seek-at n n (home k) j s k w (homes k) e).1

    pub at-lt : (s : Slots) (k w : List ℕ) (j : ℕ) → find s k ≡ at j w → j < n
    at-lt s k w j e = (seek-at n n (home k) j s k w (homes k) e).0

    pub find-fill : (s : Slots) (k v : List ℕ) (j : ℕ) → Ends s k j → find (fill s j k v) k ≡ at j v
    find-fill s k v j (inl e) = seek-fill_vacant n j s k v (Ends-Fits s k j (inl e)).1 n (home k) e
    find-fill s k v j (inr (w, e)) =
        seek-fill_at n j s k v (Ends-Fits s k j (inr (w, e))).1 n (home k) e

    Ends-eq :
        (s : Slots) (k : List ℕ) (j m : ℕ) {v : List ℕ} → Ends s k j → find s k ≡ at m v → m ≡ j
    Ends-eq s k j m (inl e) h = let q = sym h ∙ e in cc
    Ends-eq s k j m (inr (w, e)) h = let q = sym h ∙ e in cc

    pub fill-Placed :
        (s : Slots) (k v : List ℕ) (j : ℕ) → Placed s → Ends s k j → Placed (fill s j k v)
    fill-Placed s k v j placed ends m o w h p = elim (Bool-cases (m == j)) [
      | inl y ↦
          let e = (==_iff m j).0 y in
          let q : some (k, v) ≡ some (o, w) = rw y at p in
          let ko : k ≡ o = cc in let vw : v ≡ w = cc in rw (← ko, ← vw, e) (find-fill s k v j ends)
      | inr z ↦
          let old = rw z at p in
          let before = placed m o w h old in
          elim (Bool-cases (bytes_eq o k)) [
            | inl y ↦
                let ok = (bytes_eq_iff o k).0 y in
                absurd (
                  let e = Ends-eq s k j m ends (subst (λ x. find s x ≡ at m w) ok before) in
                  let t = (==_iff m j).1 e in cc)
            | inr x ↦ seek-fill_other n j s k v (Ends-Fits s k j ends).1 n (home o) o x before
          ]
    ]

    -- a key that is found nowhere before is found nowhere after
    view-fill_none :
        (s : Slots) (k v o : List ℕ) (j : ℕ)
        → Placed s
        → Ends s k j
        → bytes_eq o k ≡ false
        → ((m : ℕ) (w : List ℕ) → ¬ (find s o ≡ at m w))
        → value_at (find (fill s j k v) o) ≡ none
    view-fill_none s k v o j placed ends z unseen = elim (Seek-cases (find (fill s j k v) o)) [
      | inl (m, w, e) ↦
          let (h, p) = seek-at n n (home o) m (fill s j k v) o w (homes o) e in
          absurd (elim (Bool-cases (m == j)) [
            | inl y ↦
                let q : some (k, v) ≡ some (o, w) = rw y at p in
                let ko : k ≡ o = cc in let t = (bytes_eq_iff o k).1 (sym ko) in cc
            | inr y ↦ unseen m w (placed m o w h (rw y at p))
          ])
      | inr (inl (m, e)) ↦ rw e refl
      | inr (inr e) ↦ rw e refl
    ]

    -- Writing the slot where the search for a key ends updates the map at that key.
    pub view-fill :
        (s : Slots) (k v o : List ℕ) (j : ℕ)
        → Placed s
        → Ends s k j
        → view (fill s j k v) o ≡ (if bytes_eq o k then some v else view s o)
    unfolding view
    view-fill s k v o j placed ends = elim (Bool-cases (bytes_eq o k)) [
      | inl y ↦ rw (y, (bytes_eq_iff o k).0 y, find-fill s k v j ends) refl
      | inr z ↦ elim (Seek-cases (find s o)) [
        | inl (m, w, e) ↦
            rw (z, e, seek-fill_other n j s k v (Ends-Fits s k j ends).1 n (home o) o z e) refl
        | inr (inl (m, e)) ↦
            rw (z, e) (view-fill_none s k v o j placed ends z (λ m w q. let t = sym q ∙ e in cc))
        | inr (inr e) ↦
            rw (z, e) (view-fill_none s k v o j placed ends z (λ m w q. let t = sym q ∙ e in cc))
      ]
    ]

    -- With an empty slot, the search ends.
    pub find-Ends : (s : Slots) (k : List ℕ) → count n s < n → (j : ℕ) × Ends s k j
    find-Ends s k h =
        let (e, g, p) = count-vacancy n s h in
        elim (Seek-cases (find s k)) [
          | inl (j, w, q) ↦ (j, inr (w, q))
          | inr (inl (j, q)) ↦ (j, inl q)
          | inr (inr q) ↦ absurd (seek-ne-lost n (home k) e s k (homes k) g p q)
        ]
