-- ===== src/Lookup/ElementLaws.antt =====
-- Elements of a vector that is appended to and written.
use not_an_oak_fork.Base.{
  ℕ, zero, suc, ◌<◌, ◌≡◌, ◌≢◌, refl, ap, List, [], ◌∷◌, ◌++◌, length, set, replicate, arith,
}
use not_an_oak_fork.Lookup.Run.{ok}
use not_an_oak_fork.Lookup.Htbl.{element}

module _ {ℓ} {A : Type ℓ} where
  pub element-of_lt : (xs : List A) (i : ℕ) → i < length xs → (x : A) × (element xs i ≡ ok x)
  unfolding element
  element-of_lt [] i h = elim h [ ]
  element-of_lt (x ∷ xs) zero h = (x, refl)
  element-of_lt (x ∷ xs) (suc i) h = element-of_lt xs i (omega arith)

  pub lt_of_element : (xs : List A) (i : ℕ) (x : A) → element xs i ≡ ok x → i < length xs
  unfolding element
  lt_of_element [] i x e = cc
  lt_of_element (y ∷ xs) zero x e = omega arith
  lt_of_element (y ∷ xs) (suc i) x e = omega (arith, lt_of_element xs i x e)

  pub element-append :
      (xs ys : List A) (i : ℕ) {x : A} → element xs i ≡ ok x → element (xs ++ ys) i ≡ ok x
  unfolding element
  element-append [] ys i e = cc
  element-append (y ∷ xs) ys zero e = e
  element-append (y ∷ xs) ys (suc i) e = element-append xs ys i e

  pub element-append_last : (xs : List A) (x : A) → element (xs ++ x ∷ []) (length xs) ≡ ok x
  unfolding element
  element-append_last [] x = refl
  element-append_last (y ∷ xs) x = element-append_last xs x

  pub element-append_inv :
      (xs : List A) (x : A) (i : ℕ) {y : A}
      → element (xs ++ x ∷ []) i ≡ ok y
      → i ≢ length xs
      → element xs i ≡ ok y
  unfolding element
  element-append_inv [] x zero e h = absurd (h refl)
  element-append_inv [] x (suc i) e h = cc
  element-append_inv (z ∷ xs) x zero e h = e
  element-append_inv (z ∷ xs) x (suc i) e h = element-append_inv xs x i e (λ q. h (ap suc q))

  pub element-set_self :
      (xs : List A) (i : ℕ) (x : A) → i < length xs → element (set xs i x) i ≡ ok x
  unfolding element
  element-set_self [] i x h = elim h [ ]
  element-set_self (y ∷ xs) zero x h = refl
  element-set_self (y ∷ xs) (suc i) x h = element-set_self xs i x (omega arith)

  pub element-set_ne :
      (xs : List A) (i j : ℕ) (x : A) → i ≢ j → element (set xs i x) j ≡ element xs j
  unfolding element
  element-set_ne [] i j x h = refl
  element-set_ne (y ∷ xs) zero zero x h = absurd (h refl)
  element-set_ne (y ∷ xs) zero (suc j) x h = refl
  element-set_ne (y ∷ xs) (suc i) zero x h = refl
  element-set_ne (y ∷ xs) (suc i) (suc j) x h = element-set_ne xs i j x (λ e. h (ap suc e))

  pub element-replicate : (n i : ℕ) (x : A) → i < n → element (replicate n x) i ≡ ok x
  unfolding element
  element-replicate zero i x h = absurd (omega arith)
  element-replicate (suc n) zero x h = refl
  element-replicate (suc n) (suc i) x h = element-replicate n i x (omega arith)
