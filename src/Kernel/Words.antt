-- ===== src/Kernel/Words.antt =====
-- Bit arrays as functions, for the tests.
use not_an_oak_fork.Base.{
  ℕ, zero, suc, ◌+◌, ◌≤◌, ◌<◌, ◌≡◌, refl, inl, inr, Bool, true, false, ◌&&◌, not, Bool-cases,
  ==_iff, Option, some, none, arith, ltb, leb, ◌==◌, if◌then◌else◌, some-inj,
}
use not_an_oak_fork.Kernel.Bits.{BitArray, IsBitArray}

-- the first set one of the `n` bits from bit `i` on
abbrev pub first_from : ℕ → ℕ → (ℕ → Bool) → Option ℕ
first_from zero i x = none
first_from (suc n) i x = let later = first_from n (suc i) x in if x i then some i else later

abbrev pub count_below : ℕ → (ℕ → Bool) → ℕ
count_below zero x = 0
count_below (suc n) x = (if x n then 1 else 0) + count_below n x

abbrev pub words : ℕ → BitArray (ℕ → Bool)
words n = record {
  len = n;
  zero_bits = λ i. false;
  get = λ i x. x i;
  set = λ i v x j. if i == j then v else x j;
  fill = λ s e v x j. if leb s j && ltb j e then v else x j;
  bitand = λ x y i. x i && y i;
  complement = λ x i. not (x i);
  first_one = first_from n 0;
  count_ones = count_below n;
}

first_from-some :
    (n i k : ℕ) (x : ℕ → Bool)
    → first_from n i x ≡ some k
    → (k < i + n) × (x k ≡ true) × ((j : ℕ) → i ≤ j → j < k → x j ≡ false)
first_from-some zero i k x e = cc
first_from-some (suc n) i k x e = elim (Bool-cases (x i)) [
  | inl t ↦
      let p : i ≡ k = some-inj (rw t at e) in
      (omega (arith, p), rw (← p) t, λ j a c. absurd (omega (arith, p)))
  | inr f ↦
      let (h, t, before) = first_from-some n (suc i) k x (rw f at e) in
      (
        omega arith,
        t,
        λ j a c. elim (Bool-cases (i == j)) [
          | inl q ↦ rw (← (==_iff i j).0 q) f
          | inr q ↦ before j (ground arith) c
        ],
      )
]

first_from-none :
    (n i : ℕ) (x : ℕ → Bool) → first_from n i x ≡ none → (j : ℕ) → i ≤ j → j < i + n → x j ≡ false
first_from-none zero i x e j a c = absurd (omega arith)
first_from-none (suc n) i x e j a c = elim (Bool-cases (x i)) [
  | inl t ↦ absurd (let q = rw t at e in cc)
  | inr f ↦ elim (Bool-cases (i == j)) [
    | inl q ↦ rw (← (==_iff i j).0 q) f
    | inr q ↦ first_from-none n (suc i) x (rw f at e) j (ground arith) (omega arith)
  ]
]

pub words-IsBitArray : (n : ℕ) → IsBitArray (ℕ → Bool) (words n)
words-IsBitArray n = record {
  get-zero_bits = λ i h. refl;
  get-set_self = λ i v x h. rw ((==_iff i i).1 refl) refl;
  get-set_ne = λ i j v x h k q. ground arith;
  get-fill = λ i s e v x h k. refl;
  get-bitand = λ i x y h. refl;
  get-complement = λ i x h. refl;
  first_one-some = λ x i e.
      let (h, t, before) = first_from-some n 0 i x e in
      (omega (arith, h), t, λ j c. before j (omega arith) c);
  first_one-none = λ x e i h. first_from-none n 0 x e i (omega arith) (omega arith);
}
