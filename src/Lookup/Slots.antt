-- ===== src/Lookup/Slots.antt =====
-- Open addressing on slots that hold a key and a value or nothing: what the probing of
-- oak_functions_service/src/lookup_htbl.rs comes to when hash bytes and chunks are left out.
use not_an_oak_fork.Base.{
  ℕ, zero, suc, ◌<◌, ◌≡◌, ◌≢◌, refl, inl, inr, true, false, Bool-cases, Option-cases, if◌then◌else◌,
  ◌==◌, ==_iff, Option, some, none, List, bytes_eq, bytes_eq_iff, arith,
}

abbrev pub Slots : Type 0
Slots = ℕ → Option (List ℕ × List ℕ)

pub data Seek : Type 0 where
  at : ℕ → List ℕ → Seek
  vacant : ℕ → Seek
  lost : Seek

abbrev pub step : ℕ → ℕ → ℕ
step n i = if suc i == n then 0 else suc i

unfoldable pub visit : Option (List ℕ × List ℕ) → ℕ → List ℕ → Seek → Seek
visit none i k later = vacant i
visit (some (k', v)) i k later = if bytes_eq k k' then at i v else later

unfoldable pub seek : ℕ → ℕ → Slots → ℕ → List ℕ → Seek
unfolding visit
seek zero n s i k = lost
seek (suc r) n s i k = visit (s i) i k (seek r n s (step n i) k)

abbrev pub fill : Slots → ℕ → List ℕ → List ℕ → Slots
fill s j k v i = if i == j then some (k, v) else s i

pub bytes_eq_refl : (k : List ℕ) → bytes_eq k k ≡ true
bytes_eq_refl k = (bytes_eq_iff k k).1 refl

pub bytes_ne : (k k' : List ℕ) → k ≢ k' → bytes_eq k k' ≡ false
bytes_ne k k' h = elim (Bool-cases (bytes_eq k k')) [
  | inl e ↦ absurd (h ((bytes_eq_iff k k').0 e))
  | inr e ↦ e
]

pub step-lt : (n i : ℕ) → i < n → step n i < n
step-lt n i h = ground arith

pub seek-at :
    (r n i j : ℕ) (s : Slots) (k v : List ℕ)
    → i < n
    → seek r n s i k ≡ at j v
    → (j < n) × (s j ≡ some (k, v))
unfolding seek
seek-at zero n i j s k v h e = cc
seek-at (suc r) n i j s k v h e = elim (Option-cases (s i)) [
  | inl p ↦ absurd (let q = rw p at e in cc)
  | inr ((k', v'), p) ↦ elim (Bool-cases (bytes_eq k k')) [
    | inl y ↦
        let q = rw (p, y) at e in
        let ij : i ≡ j = cc in
        let vv : v' ≡ v = cc in (rw (← ij) h, rw (← ij, p, (bytes_eq_iff k k').0 y, vv) refl)
    | inr z ↦ seek-at r n (step n i) j s k v (step-lt n i h) (rw (p, z) at e)
  ]
]

pub seek-vacant :
    (r n i j : ℕ) (s : Slots) (k : List ℕ)
    → i < n
    → seek r n s i k ≡ vacant j
    → (j < n) × (s j ≡ none)
unfolding seek
seek-vacant zero n i j s k h e = cc
seek-vacant (suc r) n i j s k h e = elim (Option-cases (s i)) [
  | inl p ↦ let q = rw p at e in let ij : i ≡ j = cc in (rw (← ij) h, rw (← ij) p)
  | inr ((k', v'), p) ↦ elim (Bool-cases (bytes_eq k k')) [
    | inl y ↦ absurd (let q = rw (p, y) at e in cc)
    | inr z ↦ seek-vacant r n (step n i) j s k (step-lt n i h) (rw (p, z) at e)
  ]
]

pub fill_self : (s : Slots) (j : ℕ) (k v : List ℕ) → fill s j k v j ≡ some (k, v)
fill_self s j k v = rw ((==_iff j j).1 refl) refl

pub fill_ne : (s : Slots) (i j : ℕ) (k v : List ℕ) → i ≢ j → fill s j k v i ≡ s i
fill_ne s i j k v h = ground arith
