-- ===== src/Lookup/PairLaws.antt =====
-- A key and a value in a chunk: what is written is read back, and nothing else changes.
use not_an_oak_fork.Base.{
  ℕ, suc, ◌+◌, ◌-◌, ◌^◌, ◌≤◌, ◌<◌, ◌≡◌, refl, ap, ◌∙◌, List, [], ◌∷◌, length, get_or, arith, lt→ltb,
  le→leb,
}
use not_an_oak_fork.Lookup.Run.{ok}
use not_an_oak_fork.Lookup.Chunk.{Chunk, bytes_from, slice, put_bytes, copy_from_slice}
use not_an_oak_fork.Lookup.Htbl.{key_in, value_in}
use not_an_oak_fork.Lookup.Insert.{write_pair}
use not_an_oak_fork.Lookup.LenLaws.{Written, write_len-Written}

abbrev pub copied : Chunk → ℕ → List ℕ → Chunk
copied c i xs = record c { byte = put_bytes c.byte i xs }

copy_from_slice-ok :
    (c : Chunk) (i : ℕ) (xs : List ℕ)
    → i + length xs ≤ c.size
    → copy_from_slice c i xs ≡ ok (copied c i xs)
unfolding copy_from_slice
copy_from_slice-ok c i xs h = rw (le→leb (i + length xs) c.size h) refl

put_bytes-below : (f : ℕ → ℕ) (i : ℕ) (xs : List ℕ) (j : ℕ) → j < i → put_bytes f i xs j ≡ f j
unfolding put_bytes
put_bytes-below f i xs j h = ground arith

put_bytes-above :
    (f : ℕ → ℕ) (i : ℕ) (xs : List ℕ) (j : ℕ) → i + length xs ≤ j → put_bytes f i xs j ≡ f j
unfolding put_bytes
put_bytes-above f i xs j h = ground arith

put_bytes-inside :
    (f : ℕ → ℕ) (i : ℕ) (xs : List ℕ) (m : ℕ)
    → m < length xs
    → put_bytes f i xs (i + m) ≡ get_or xs m 0
unfolding put_bytes
put_bytes-inside f i xs m h =
    let e : i + m - i ≡ m = omega arith in
    rw (le→leb i (i + m) (omega arith), lt→ltb (i + m) (i + length xs) (omega arith), e) refl

bytes_from-eq :
    (g : ℕ → ℕ) (i : ℕ) (xs : List ℕ)
    → ((m : ℕ) → m < length xs → g (i + m) ≡ get_or xs m 0)
    → bytes_from g i (length xs) ≡ xs
unfolding bytes_from
bytes_from-eq g i [] h = refl
bytes_from-eq g i (x ∷ xs) h =
    let first : g i ≡ x = ap g (omega arith) ∙ h 0 (omega arith) in
    rw (first, bytes_from-eq g (suc i) xs (λ m p. ap g (omega arith) ∙ h (suc m) (omega arith)))
      refl

-- A slice of what was copied is what was copied.
slice-copied :
    (c d : Chunk) (i : ℕ) (xs : List ℕ)
    → i + length xs ≤ d.size
    → ((j : ℕ) → i ≤ j → j < i + length xs → d.byte j ≡ (copied c i xs).byte j)
    → slice d i (length xs) ≡ ok xs
unfolding slice
slice-copied c d i xs h same =
    rw
      (
        le→leb (i + length xs) d.size h,
        bytes_from-eq d.byte i xs
            (λ m p. same (i + m) (omega arith) (omega arith) ∙ put_bytes-inside c.byte i xs m p),
      )
      refl

-- The chunk `c'` holds the pair in the bytes from index `i` up to `end`, and what `c` holds
-- elsewhere.
pub record PairWritten (c : Chunk) (i : ℕ) (key value : List ℕ) (c' : Chunk) (end : ℕ)
    : Type 0 where
  pub size : c'.size ≡ c.size
  pub forward : i < end
  pub short : end ≤ i + (8 + length key + length value)
  pub below : (j : ℕ) → j < i → c'.byte j ≡ c.byte j
  pub above : (j : ℕ) → end ≤ j → c'.byte j ≡ c.byte j
  pub reads :
      (d : Chunk)
      → end ≤ d.size
      → ((j : ℕ) → i ≤ j → j < end → d.byte j ≡ c'.byte j)
      → (key_in d i ≡ ok key) × (value_in d i ≡ ok value)

-- A key and a value are written with their lengths.
pub write_pair-PairWritten :
    (c : Chunk) (i : ℕ) (key value : List ℕ)
    → length key < 2 ^ 30
    → length value < 2 ^ 30
    → i + (10 + length key + length value) ≤ c.size
    → (c' : Chunk) × (end : ℕ) × (write_pair c i key value ≡ ok (c', end))
      × PairWritten c i key value c' end
unfolding write_pair Written key_in value_in
write_pair-PairWritten c i key value p q h =
    let (c1, k1, e1, w1) = write_len-Written c i (length key) p (omega arith) in
    let c2 = copied c1 (i + k1) key in
    let vi = i + k1 + length key in
    let (c3, k2, e3, w3) =
      write_len-Written c2 vi (length value) q (omega (arith, w1.size, w1.few_bytes)) in
    let c4 = copied c3 (vi + k2) value in
    let end = vi + k2 + length value in
    let s3 : c3.size ≡ c.size = w3.size ∙ w1.size in
    (
      c4,
      end,
      rw
          (
            e1,
            copy_from_slice-ok c1 (i + k1) key (omega (arith, w1.size, w1.few_bytes)),
            e3,
            copy_from_slice-ok c3 (vi + k2) value (omega (arith, s3, w1.few_bytes, w3.few_bytes)),
          )
          refl,
      record {
        size = s3;
        forward = omega (arith, w1.some_byte);
        short = omega (arith, w1.few_bytes, w3.few_bytes);
        below = λ j b.
            put_bytes-below c3.byte (vi + k2) value j (omega arith)
            ∙ w3.below j (omega arith)
            ∙ put_bytes-below c1.byte (i + k1) key j (omega arith)
            ∙ w1.below j b;
        above = λ j b.
            put_bytes-above c3.byte (vi + k2) value j b
            ∙ w3.above j (omega arith)
            ∙ put_bytes-above c1.byte (i + k1) key j (omega arith)
            ∙ w1.above j (omega arith);
        reads = λ d r same.
            let at3 : (j : ℕ) → i ≤ j → j < vi + k2 → d.byte j ≡ c3.byte j =
              λ j a b. same j a (omega arith) ∙ put_bytes-below c3.byte (vi + k2) value j b in
            let at2 : (j : ℕ) → i ≤ j → j < vi → d.byte j ≡ c2.byte j =
              λ j a b. at3 j a (omega arith) ∙ w3.below j b in
            let at1 : (j : ℕ) → i ≤ j → j < i + k1 → d.byte j ≡ c1.byte j =
              λ j a b. at2 j a (omega arith) ∙ put_bytes-below c1.byte (i + k1) key j b in
            let key_len = w1.reads d (omega arith) at1 in
            let value_len = w3.reads d (omega arith) (λ j a b. at3 j (omega arith) b) in
            (
              rw (key_len)
                  (slice-copied c1 d (i + k1) key (omega arith) (λ j a b. at2 j (omega arith) b)),
              rw (key_len, value_len)
                  (slice-copied c3 d (vi + k2) value r (λ j a b. same j (omega arith) b)),
            );
      },
    )
