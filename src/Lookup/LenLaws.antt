-- ===== src/Lookup/LenLaws.antt =====
-- The compressed lengths in a chunk: what is written is read back, and nothing else changes.
use not_an_oak_fork.Base.{
  ℕ, zero, suc, ◌+◌, ◌*◌, ◌/◌, ◌%◌, ◌^◌, ◌≤◌, ◌<◌, ◌≡◌, ◌≢◌, refl, ap, ◌∙◌, inl, inr, Bool-cases,
  if◌then◌else◌, ltb, ◌==◌, arith, from_le_bytes, ltb→lt, ltb_false→le, lt→ltb, le→leb,
  le→ltb_false, lt→leb_false,
}
use not_an_oak_fork.Lookup.Run.{ok}
use not_an_oak_fork.Lookup.Chunk.{Chunk, bytes_from, store, read_len, write_len, write_len_loop}

-- what `store` makes of a chunk
abbrev pub stored : Chunk → ℕ → ℕ → Chunk
stored c i b = record c { byte = λ j. if j == i then b % 256 else c.byte j }

store-ok : (c : Chunk) (i b : ℕ) → i < c.size → store c i b ≡ ok (stored c i b)
unfolding store
store-ok c i b h = rw (lt→ltb i c.size h) refl

-- The chunk `c'` holds the length `n` in the `k` bytes from index `i` on, and what `c` holds
-- elsewhere.
pub record LenWritten (c : Chunk) (i n : ℕ) (c' : Chunk) (k : ℕ) : Type 0 where
  pub size : c'.size ≡ c.size
  pub some_byte : 1 ≤ k
  pub few_bytes : k ≤ 4
  pub below : (j : ℕ) → j < i → c'.byte j ≡ c.byte j
  pub above : (j : ℕ) → i + k ≤ j → c'.byte j ≡ c.byte j
  pub reads :
      (d : Chunk)
      → i + k ≤ d.size
      → ((j : ℕ) → i ≤ j → j < i + k → d.byte j ≡ c'.byte j)
      → read_len d i ≡ ok (n, k)

loop_end :
    (rounds : ℕ) (c : Chunk) (i m n : ℕ) → n < 64 → write_len_loop rounds c i m n ≡ ok (c, m, n)
unfolding write_len_loop
loop_end zero c i m n h = refl
loop_end (suc rounds) c i m n h = rw (lt→leb_false 64 n h) refl

loop_round :
    (rounds : ℕ) (c : Chunk) (i m n : ℕ)
    → 64 ≤ n
    → i + m < c.size
    → write_len_loop (suc rounds) c i m n
      ≡ write_len_loop rounds (stored c (i + m) n) i (m + 1) (n / 256)
unfolding write_len_loop
loop_round rounds c i m n h g = rw (le→leb 64 n h, store-ok c (i + m) n g) refl

read_len-short :
    (d : Chunk) (i n : ℕ) → i < d.size → d.byte i ≡ n → n < 64 → read_len d i ≡ ok (n, 1)
unfolding read_len
read_len-short d i n h e g = rw (lt→ltb i d.size h, e, lt→ltb n 64 g) refl

read_len-long :
    (d : Chunk) (i m r : ℕ)
    → i + 1 + m ≤ d.size
    → d.byte i ≡ m * 64 + r
    → r < 64
    → 1 ≤ m
    → read_len d i ≡ ok (from_le_bytes (bytes_from d.byte (i + 1) m) + r * 2 ^ (8 * m), 1 + m)
unfolding read_len
read_len-long d i m r h e g p =
    let quotient : (m * 64 + r) / 64 ≡ m = omega arith in
    let remainder : (m * 64 + r) % 64 ≡ r = omega arith in
    rw
      (
        lt→ltb i d.size (omega arith),
        e,
        le→ltb_false (m * 64 + r) 64 (omega arith),
        quotient,
        remainder,
        le→leb (i + 1 + m) d.size h,
      )
      refl

-- the chunk and the bytes that the loop leaves, for lengths of two to four bytes
loop_two :
    (rounds : ℕ) (c : Chunk) (i n : ℕ)
    → 1 ≤ rounds
    → 64 ≤ n
    → n / 256 < 64
    → i + 4 < c.size
    → write_len_loop rounds c i 1 n ≡ ok (stored c (i + 1) n, 2, n / 256)
loop_two zero c i n r h g p = absurd (omega arith)
loop_two (suc rounds) c i n r h g p =
    loop_round rounds c i 1 n h (omega arith) ∙ loop_end rounds _ i 2 (n / 256) g

loop_three :
    (rounds : ℕ) (c : Chunk) (i n : ℕ)
    → 2 ≤ rounds
    → 64 ≤ n / 256
    → n / 256 / 256 < 64
    → i + 4 < c.size
    → write_len_loop rounds c i 1 n
      ≡ ok (stored (stored c (i + 1) n) (i + 2) (n / 256), 3, n / 256 / 256)
loop_three zero c i n r h g p = absurd (omega arith)
loop_three (suc zero) c i n r h g p = absurd (omega arith)
loop_three (suc (suc rounds)) c i n r h g p =
    loop_round (suc rounds) c i 1 n (omega arith) (omega arith)
    ∙ loop_round rounds _ i 2 (n / 256) h (omega arith)
    ∙ loop_end rounds _ i 3 (n / 256 / 256) g

loop_four :
    (rounds : ℕ) (c : Chunk) (i n : ℕ)
    → 3 ≤ rounds
    → 64 ≤ n / 256 / 256
    → n / 256 / 256 / 256 < 64
    → i + 4 < c.size
    → write_len_loop rounds c i 1 n
      ≡ ok (
        stored (stored (stored c (i + 1) n) (i + 2) (n / 256)) (i + 3) (n / 256 / 256),
        4,
        n / 256 / 256 / 256,
      )
loop_four zero c i n r h g p = absurd (omega arith)
loop_four (suc zero) c i n r h g p = absurd (omega arith)
loop_four (suc (suc zero)) c i n r h g p = absurd (omega arith)
loop_four (suc (suc (suc rounds))) c i n r h g p =
    loop_round (suc (suc rounds)) c i 1 n (omega arith) (omega arith)
    ∙ loop_round (suc rounds) _ i 2 (n / 256) (omega arith) (omega arith)
    ∙ loop_round rounds _ i 3 (n / 256 / 256) h (omega arith)
    ∙ loop_end rounds _ i 4 (n / 256 / 256 / 256) g

-- a write to a chunk, read at the same index and at another
stored_self : (c : Chunk) (i b : ℕ) → b < 256 → (stored c i b).byte i ≡ b
stored_self c i b h = ground arith

stored_ne : (c : Chunk) (i j b : ℕ) → j ≢ i → (stored c i b).byte j ≡ c.byte j
stored_ne c i j b h = ground arith

unfoldable pub Written : Chunk → ℕ → ℕ → Type 0
Written c i n = (c' : Chunk) × (k : ℕ) × (write_len c i n ≡ ok (c', k)) × LenWritten c i n c' k

Written-one : (c : Chunk) (i n : ℕ) → n < 64 → i + 4 < c.size → Written c i n
unfolding Written write_len bytes_from
Written-one c i n h p = (
  stored c i n,
  1,
  rw (lt→ltb n 64 h, store-ok c i n (omega arith)) refl,
  record {
    size = refl;
    some_byte = omega arith;
    few_bytes = omega arith;
    below = λ j q. stored_ne c i j n (omega arith);
    above = λ j q. stored_ne c i j n (omega arith);
    reads = λ d q same.
        read_len-short d i n (omega arith)
          (same i (omega arith) (omega arith) ∙ stored_self c i n (omega arith)) h;
  },
)

Written-two : (c : Chunk) (i n : ℕ) → 64 ≤ n → n / 256 < 64 → i + 4 < c.size → Written c i n
unfolding Written write_len bytes_from
Written-two c i n h g p =
    let c1 = stored c (i + 1) n in
    let c2 = stored c1 i (64 + n / 256) in
    (
      c2,
      2,
      rw
          (
            le→ltb_false n 64 h,
            loop_two n c i n (omega arith) h g p,
            store-ok c1 i (64 + n / 256) (omega arith),
          )
          refl,
      record {
        size = refl;
        some_byte = omega arith;
        few_bytes = omega arith;
        below = λ j q. ground arith;
        above = λ j q. ground arith;
        reads = λ d q same.
            let first : d.byte i ≡ 1 * 64 + n / 256 =
              same i (omega arith) (omega arith) ∙ stored_self c1 i (64 + n / 256) (omega arith) in
            let second : d.byte (i + 1) ≡ n % 256 =
              same (i + 1) (omega arith) (omega arith) ∙ (ground arith) in
            read_len-long d i 1 (n / 256) (omega arith) first g (omega arith)
            ∙ ap (λ (x : ℕ). ok (x, 2)) (omega (arith, second));
      },
    )

Written-three :
    (c : Chunk) (i n : ℕ) → 64 ≤ n / 256 → n / 256 / 256 < 64 → i + 4 < c.size → Written c i n
unfolding Written write_len bytes_from
Written-three c i n h g p =
    let c2 = stored (stored c (i + 1) n) (i + 2) (n / 256) in
    let r = n / 256 / 256 in
    (
      stored c2 i (128 + r),
      3,
      rw
          (
            le→ltb_false n 64 (omega arith),
            loop_three n c i n (omega arith) h g p,
            store-ok c2 i (128 + r) (omega arith),
          )
          refl,
      record {
        size = refl;
        some_byte = omega arith;
        few_bytes = omega arith;
        below = λ j q. ground arith;
        above = λ j q. ground arith;
        reads = λ d q same.
            let first : d.byte i ≡ 2 * 64 + r =
              same i (omega arith) (omega arith) ∙ stored_self c2 i (128 + r) (omega arith) in
            let second : d.byte (i + 1) ≡ n % 256 =
              same (i + 1) (omega arith) (omega arith) ∙ (ground arith) in
            let third : d.byte (suc (i + 1)) ≡ n / 256 % 256 =
              same (suc (i + 1)) (omega arith) (omega arith) ∙ (ground arith) in
            read_len-long d i 2 r (omega arith) first g (omega arith)
            ∙ ap (λ (x : ℕ). ok (x, 3)) (omega (arith, second, third));
      },
    )

Written-four :
    (c : Chunk) (i n : ℕ)
    → 64 ≤ n / 256 / 256
    → n / 256 / 256 / 256 < 64
    → i + 4 < c.size
    → Written c i n
unfolding Written write_len bytes_from
Written-four c i n h g p =
    let c3 = stored (stored (stored c (i + 1) n) (i + 2) (n / 256)) (i + 3) (n / 256 / 256) in
    let r = n / 256 / 256 / 256 in
    (
      stored c3 i (192 + r),
      4,
      rw
          (
            le→ltb_false n 64 (omega arith),
            loop_four n c i n (omega arith) h g p,
            store-ok c3 i (192 + r) (omega arith),
          )
          refl,
      record {
        size = refl;
        some_byte = omega arith;
        few_bytes = omega arith;
        below = λ j q. ground arith;
        above = λ j q. ground arith;
        reads = λ d q same.
            let first : d.byte i ≡ 3 * 64 + r =
              same i (omega arith) (omega arith) ∙ stored_self c3 i (192 + r) (omega arith) in
            let second : d.byte (i + 1) ≡ n % 256 =
              same (i + 1) (omega arith) (omega arith) ∙ (ground arith) in
            let third : d.byte (suc (i + 1)) ≡ n / 256 % 256 =
              same (suc (i + 1)) (omega arith) (omega arith) ∙ (ground arith) in
            let fourth : d.byte (suc (suc (i + 1))) ≡ n / 256 / 256 % 256 =
              same (suc (suc (i + 1))) (omega arith) (omega arith) ∙ (ground arith) in
            read_len-long d i 3 r (omega arith) first g (omega arith)
            ∙ ap (λ (x : ℕ). ok (x, 4)) (omega (arith, second, third, fourth));
      },
    )

-- A length of less than 2^30 is written in at most four bytes.
pub write_len-Written : (c : Chunk) (i n : ℕ) → n < 2 ^ 30 → i + 4 < c.size → Written c i n
write_len-Written c i n h p = elim (Bool-cases (ltb n 64)) [
  | inl y ↦ Written-one c i n (ltb→lt n 64 y) p
  | inr a ↦ elim (Bool-cases (ltb (n / 256) 64)) [
    | inl y ↦ Written-two c i n (ltb_false→le n 64 a) (ltb→lt (n / 256) 64 y) p
    | inr b ↦ elim (Bool-cases (ltb (n / 256 / 256) 64)) [
      | inl y ↦ Written-three c i n (ltb_false→le (n / 256) 64 b) (ltb→lt (n / 256 / 256) 64 y) p
      | inr z ↦ Written-four c i n (ltb_false→le (n / 256 / 256) 64 z) (omega arith) p
    ]
  ]
]
