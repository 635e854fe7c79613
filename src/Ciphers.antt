-- ===== src/Ciphers.antt =====
-- A cipher that puts a tag in front of the text, which the tests of the encrypted sessions run.
use not_an_oak_fork.Base.{
  ℕ, ◌+◌, ◌≡◌, refl, true, if◌then◌else◌, ◌==◌, Option, some, none, List, [], ◌∷◌, arith,
}

abbrev pub sum : List ℕ → ℕ
sum [] = 0
sum (b ∷ bs) = b + sum bs

abbrev pub tag : List ℕ → List ℕ → List ℕ → ℕ
tag k nonce aad = sum k + sum nonce + sum aad

abbrev pub open_tagged : ℕ → List ℕ → Option (List ℕ)
open_tagged t [] = none
open_tagged t (b ∷ bs) = if b == t then some bs else none

abbrev pub first_byte : List ℕ → Option ℕ
first_byte [] = none
first_byte (b ∷ bs) = some b

pub open_tagged_self : (t : ℕ) (p : List ℕ) → open_tagged t (t ∷ p) ≡ some p
open_tagged_self t p = let e : (t == t) ≡ true = ground arith in rw e refl
