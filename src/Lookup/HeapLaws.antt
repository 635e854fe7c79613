-- ===== src/Lookup/HeapLaws.antt =====
-- The keys and values of a table in its chunks: `new_data` stores a pair and keeps the others.
use native.Mathlib.Nat.{div-eq_of_lt-le, mod-add-div'}
use not_an_oak_fork.Base.{
  ℕ, suc, ◌+◌, ◌*◌, ◌/◌, ◌%◌, ◌^◌, ◌≤◌, ◌<◌, ◌≡◌, refl, sym, ap, ◌∙◌, ◌⊎◌, List, length, arith,
}
use not_an_oak_fork.Lookup.Run.{ok}
use not_an_oak_fork.Lookup.Chunk.{Chunk}
use not_an_oak_fork.Lookup.Htbl.{
  LookupHtbl, element, chunk_at, index_in_chunk, key_in, value_in, read_key, read_value,
}

-- The chunks of a table: their sizes, and how far they are used.
pub record HeapValid (t : LookupHtbl) : Type 0 where
  pub size : t.chunk_size ≡ 2 ^ t.chunk_bits
  pub mask : t.chunk_mask + 1 ≡ t.chunk_size
  pub large : 2 ^ 21 ≤ t.chunk_size
  pub sizes : (q : ℕ) (c : Chunk) → element t.data_chunks q ≡ ok c → c.size ≡ t.chunk_size
  pub null_unused : 1 ≤ t.used_data
  pub chunks :
      ((length t.data_chunks ≡ 0) × (t.used_data ≡ 1))
      ⊎ (length t.data_chunks ≡ suc (t.used_data / t.chunk_size))

-- The bytes of `c` from `i` on, `n` of them, read as this pair, whatever else there is.
abbrev pub ReadsAs : Chunk → ℕ → ℕ → List ℕ → List ℕ → Type 0
ReadsAs c i n key value =
    (d : Chunk)
    → i + n ≤ d.size
    → ((j : ℕ) → i ≤ j → j < i + n → d.byte j ≡ c.byte j)
    → (key_in d i ≡ ok key) × (value_in d i ≡ ok value)

-- The data index `d` stands for this pair.
pub record Stored (t : LookupHtbl) (d : ℕ) (key value : List ℕ) : Type 0 where
  pub chunk_index : ℕ
  pub index : ℕ
  pub width : ℕ
  pub chunk : Chunk
  pub splits : d ≡ chunk_index * t.chunk_size + index
  pub positive : 0 < d
  pub not_empty : 0 < width
  pub inside : index + width ≤ t.chunk_size
  pub used : d + width ≤ t.used_data
  pub there : element t.data_chunks chunk_index ≡ ok chunk
  pub reads : ReadsAs chunk index width key value

quotient : (d q i s : ℕ) → d ≡ q * s + i → i < s → d / s ≡ q
quotient d q i s e h = div-eq_of_lt-le s (omega (arith, e)) (omega (arith, e))

remainder : (d q i s : ℕ) → d ≡ q * s + i → i < s → d % s ≡ i
remainder d q i s e h =
    let a = mod-add-div' d s in
    let b = quotient d q i s e h in omega (arith, ap (λ (x : ℕ). x * s) b)

module _ (t : LookupHtbl) (valid : HeapValid t) where
  -- The key and the value that are read at a data index are the ones stored there.
  pub read_key-Stored :
      (d : ℕ) (k v : List ℕ) → Stored t d k v → (read_key t d ≡ ok k) × (read_value t d ≡ ok v)
  unfolding read_key read_value chunk_at index_in_chunk
  read_key-Stored d k v p =
      let s = t.chunk_size in
      let q : d / 2 ^ t.chunk_bits ≡ p.chunk_index =
        ap (λ (x : ℕ). d / x) (sym valid.size)
        ∙ quotient d p.chunk_index p.index s p.splits (omega (arith, p.inside, p.not_empty)) in
      let r : d % (t.chunk_mask + 1) ≡ p.index =
        ap (λ (x : ℕ). d % x) valid.mask
        ∙ remainder d p.chunk_index p.index s p.splits (omega (arith, p.inside, p.not_empty)) in
      let c = valid.sizes p.chunk_index p.chunk p.there in
      let both = p.reads p.chunk (omega (arith, c, p.inside)) (λ j a b. refl) in
      (rw (q, r, p.there) both.0, rw (q, r, p.there) both.1)
