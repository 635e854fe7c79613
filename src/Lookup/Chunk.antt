-- ===== src/Lookup/Chunk.antt =====
-- The chunks of oak_functions_service/src/lookup_htbl.rs that hold keys and values, and the
-- compressed lengths in them.
use not_an_oak_fork.Base.{
  ℕ, zero, suc, ◌+◌, ◌-◌, ◌*◌, ◌/◌, ◌%◌, ◌^◌, ◌&&◌, if◌then◌else◌, ltb, leb, ◌==◌, List, [], ◌∷◌,
  length, get_or, from_le_bytes,
}
use not_an_oak_fork.Lookup.Run.{Run, ok, checked, ◌>>=◌}

-- a `Box<[u8]>`
pub record Chunk : Type 0 where
  pub size : ℕ
  pub byte : ℕ → ℕ

abbrev pub zeroed : ℕ → Chunk
zeroed n = record { size = n; byte = λ i. 0 }

unfoldable pub byte_at : Chunk → ℕ → Run ℕ
byte_at c i = checked (ltb i c.size) (c.byte i)

unfoldable pub bytes_from : (ℕ → ℕ) → ℕ → ℕ → List ℕ
bytes_from f i zero = []
bytes_from f i (suc n) = f i ∷ bytes_from f (suc i) n

-- `&data[i..i + n]`
unfoldable pub slice : Chunk → ℕ → ℕ → Run (List ℕ)
unfolding bytes_from
slice c i n = checked (leb (i + n) c.size) (bytes_from c.byte i n)

unfoldable pub store : Chunk → ℕ → ℕ → Run Chunk
store c i b = checked (ltb i c.size) (record c { byte = λ j. if j == i then b % 256 else c.byte j })

-- the bytes `xs` from index `i` on, and those of `f` elsewhere
unfoldable pub put_bytes : (ℕ → ℕ) → ℕ → List ℕ → ℕ → ℕ
put_bytes f i xs j = if leb i j && ltb j (i + length xs) then get_or xs (j - i) 0 else f j

-- `data[i..i + xs.len()].copy_from_slice(xs)`
unfoldable pub copy_from_slice : Chunk → ℕ → List ℕ → Run Chunk
unfolding put_bytes
copy_from_slice c i xs =
    checked (leb (i + length xs) c.size) (record c { byte = put_bytes c.byte i xs })

-- A length and the number of bytes that it takes. No bit of one operand of `|` is in the other, so
-- it is a sum.
unfoldable pub read_len : Chunk → ℕ → Run (ℕ × ℕ)
unfolding byte_at slice
read_len c index = do
  first ← byte_at c index
  let num_bytes = first / 64
  if ltb first 64
      then ok (first, 1)
      else (slice c (index + 1) num_bytes >>= λ val.
          ok (from_le_bytes val + (first % 64) * 2 ^ (8 * num_bytes), 1 + num_bytes))

-- The loop of `write_len`. As many rounds as the length are enough, since each makes it smaller.
unfoldable pub write_len_loop : ℕ → Chunk → ℕ → ℕ → ℕ → Run (Chunk × ℕ × ℕ)
unfolding store
write_len_loop zero c index num_bytes len = ok (c, num_bytes, len)
write_len_loop (suc rounds) c index num_bytes len =
    let rest = store c (index + num_bytes) len >>= λ c'.
    write_len_loop rounds c' index (num_bytes + 1) (len / 256) in
    if leb 64 len then rest else ok (c, num_bytes, len)

-- the chunk after it, and the number of bytes written
unfoldable pub write_len : Chunk → ℕ → ℕ → Run (Chunk × ℕ)
unfolding store write_len_loop
write_len c index len =
    let long = do
      (c', num_bytes, rest) ← write_len_loop len c index 1 len
      c'' ← store c' index ((num_bytes - 1) * 64 + rest)
      ok (c'', num_bytes)
    in if ltb len 64 then (store c index len >>= λ c'. ok (c', 1)) else long
