-- ===== src/Lookup/HashLaws.antt =====
-- A hash is a u64, and so the table index made of it lies in the table.
use native.Mathlib.Nat.{mul-lt-mul_of_pos_left}
use not_an_oak_fork.Base.{
  ℕ, zero, suc, ◌^◌, ◌<◌, List, inl, inr, Bool-cases, leb, length, take, drop, arith, is_empty,
}
use not_an_oak_fork.Lookup.Hash.{hash_u64, hash_rest, hash_loop, hash, reduce}

hash_u64-lt : (v secret : ℕ) → hash_u64 v secret < 2 ^ 64
unfolding hash_u64
hash_u64-lt v secret = omega arith

hash_rest-lt :
    (v : List ℕ) (val : ℕ) (bytes : List ℕ) (secret : ℕ)
    → val < 2 ^ 64
    → hash_rest v val bytes secret < 2 ^ 64
unfolding hash_rest
hash_rest-lt v val bytes secret h = elim (Bool-cases (is_empty v)) [
  | inl y ↦ rw y h
  | inr n ↦ rw n (hash_u64-lt _ secret)
]

hash_loop-lt :
    (rounds : ℕ) (v : List ℕ) (val : ℕ) (bytes : List ℕ) (secret : ℕ)
    → val < 2 ^ 64
    → hash_loop rounds v val bytes secret < 2 ^ 64
unfolding hash_loop
hash_loop-lt zero v val bytes secret h = hash_rest-lt v val bytes secret h
hash_loop-lt (suc rounds) v val bytes secret h = elim (Bool-cases (leb 8 (length v))) [
  | inl y ↦ rw y (hash_loop-lt rounds (drop 8 v) _ (take 8 v) secret (hash_u64-lt _ secret))
  | inr n ↦ rw n (hash_rest-lt v val bytes secret h)
]

pub hash-lt : (v : List ℕ) (secret : ℕ) → hash v secret < 2 ^ 64
unfolding hash
hash-lt v secret = hash_loop-lt (length v) v 0 _ secret (omega arith)

pub reduce-lt : (h n : ℕ) → h < 2 ^ 64 → 0 < n → reduce h n < n
unfolding reduce
reduce-lt h n p q = omega (arith, mul-lt-mul_of_pos_left p q)
