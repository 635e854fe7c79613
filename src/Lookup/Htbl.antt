-- ===== src/Lookup/Htbl.antt =====
-- `LookupHtbl` of oak_functions_service/src/lookup_htbl.rs: a hash table with open addressing,
-- whose entries point to keys and values in chunks.
use not_an_oak_fork.Base.{
  ℕ, zero, suc, ◌+◌, ◌-◌, ◌*◌, ◌/◌, ◌%◌, ◌^◌, Bool, true, false, ◌&&◌, not, if◌then◌else◌, ltb, leb,
  ◌==◌, Option, some, none, List, [], ◌∷◌, length, replicate, to_le_bytes, from_le_bytes, bytes_eq,
}
use not_an_oak_fork.Lookup.Run.{Run, ok, panic, endless, ◌>>=◌}
use not_an_oak_fork.Lookup.Chunk.{Chunk, slice, read_len}
use not_an_oak_fork.Lookup.Hash.{hash, reduce}

abbrev pub index_size : ℕ
index_size = 5

pub record Entry : Type 0 where
  pub hash_byte : ℕ
  pub data_index : List ℕ

abbrev pub default_entry : Entry
default_entry = record { hash_byte = 0; data_index = replicate 5 0 }

pub record LookupHtbl : Type 0 where
  pub table : List Entry
  pub data_chunks : List Chunk
  pub max_entries : ℕ
  pub used_data : ℕ
  pub used_entries : ℕ
  pub hash_secret : ℕ
  pub chunk_bits : ℕ
  pub chunk_size : ℕ
  pub chunk_mask : ℕ

abbrev pub default_htbl : LookupHtbl
default_htbl = record {
  table = [];
  data_chunks = [];
  max_entries = 0;
  used_data = 0;
  used_entries = 0;
  hash_secret = 0;
  chunk_bits = 0;
  chunk_size = 0;
  chunk_mask = 0;
}

-- `Found(table_index, data_index)` and `NotFound(table_index, hash_byte)`
pub data LookupResult : Type 0 where
  found : ℕ → ℕ → LookupResult
  not_found : ℕ → ℕ → LookupResult

-- the first power of 2 from 2 ^ k on that is at least n, of `rounds` many
unfoldable pub power_from : ℕ → ℕ → ℕ → ℕ
power_from zero k n = k
power_from (suc rounds) k n = if leb n (2 ^ k) then k else power_from rounds (suc k) n

unfoldable pub next_power_of_two : ℕ → ℕ
unfolding power_from
next_power_of_two n = 2 ^ power_from 64 0 n

unfoldable pub log_from : ℕ → ℕ → ℕ → ℕ
log_from zero k n = k
log_from (suc rounds) k n = if ltb n (2 ^ suc k) then k else log_from rounds (suc k) n

-- of a u64
unfoldable pub ilog2 : ℕ → ℕ
unfolding log_from
ilog2 n = log_from 64 0 n

unfoldable pub read_index : Entry → ℕ
read_index e = from_le_bytes e.data_index

unfoldable pub write_index : Entry → ℕ → Entry
write_index e value = record e { data_index = to_le_bytes index_size value }

-- `vec[i]`
unfoldable pub element {ℓ} : {A : Type ℓ} → List A → ℕ → Run A
element [] i = panic
element (x ∷ xs) zero = ok x
element (x ∷ xs) (suc i) = element xs i

-- `secret` is what `OsRng` gives.
unfoldable pub reserve : ℕ → ℕ → LookupHtbl → Run LookupHtbl
unfolding next_power_of_two ilog2
reserve secret max_entries t =
    let allocated_entries = (5 * max_entries + 1) / 3 in
    let chunk_size =
      (let n = next_power_of_two allocated_entries in if ltb n (2 ^ 21) then 2 ^ 21 else n) in
    if not (t.used_entries == 0)
    then ok t
    else if secret == 0
    then panic
    else ok record {
      table = replicate allocated_entries default_entry;
      data_chunks = [];
      max_entries = max_entries;
      used_data = 1;
      used_entries = 0;
      hash_secret = secret;
      chunk_bits = ilog2 chunk_size;
      chunk_size = chunk_size;
      chunk_mask = chunk_size - 1;
    }

-- the chunk of a data index, and the index in it: `& chunk_mask` keeps the bits below `chunk_size`
unfoldable pub chunk_at : LookupHtbl → ℕ → Run Chunk
unfolding element
chunk_at t data_index = element t.data_chunks (data_index / 2 ^ t.chunk_bits)

unfoldable pub index_in_chunk : LookupHtbl → ℕ → ℕ
index_in_chunk t data_index = data_index % (t.chunk_mask + 1)

unfoldable pub key_in : Chunk → ℕ → Run (List ℕ)
unfolding read_len slice
key_in chunk index = do
  (key_len, key_len_size) ← read_len chunk index
  slice chunk (index + key_len_size) key_len

unfoldable pub value_in : Chunk → ℕ → Run (List ℕ)
unfolding read_len slice
value_in chunk index = do
  (key_len, key_len_size) ← read_len chunk index
  let value_len_index = index + key_len_size + key_len
  (value_len, value_len_size) ← read_len chunk value_len_index
  slice chunk (value_len_index + value_len_size) value_len

unfoldable pub read_key : LookupHtbl → ℕ → Run (List ℕ)
unfolding chunk_at index_in_chunk key_in
read_key t data_index =
    chunk_at t data_index >>= λ chunk. key_in chunk (index_in_chunk t data_index)

unfoldable pub read_value : LookupHtbl → ℕ → Run (List ℕ)
unfolding chunk_at index_in_chunk value_in
read_value t data_index =
    chunk_at t data_index >>= λ chunk. value_in chunk (index_in_chunk t data_index)

unfoldable pub next_index : LookupHtbl → ℕ → ℕ
next_index t i = if suc i == length t.table then 0 else suc i

-- what `lookup` does at an entry where the inner `while` stops
unfoldable pub check_entry :
    LookupHtbl → List ℕ → ℕ → ℕ → Entry → Run LookupResult → Run LookupResult
unfolding read_key read_index
check_entry t key hash_byte i entry later =
    let data_index = read_index entry in
    let compared =
      read_key t data_index >>= λ k. (if bytes_eq key k then ok (found i data_index) else later) in
    if data_index == 0
    then ok (not_found i hash_byte)
    else if entry.hash_byte == hash_byte
    then compared
    else later

-- The two loops of `lookup`, which visit an entry a round. Where the rounds run out, the loops go
-- round the table for ever.
unfoldable pub probe : ℕ → LookupHtbl → List ℕ → ℕ → ℕ → Run LookupResult
unfolding element next_index check_entry
probe zero t key hash_byte i = endless
probe (suc rounds) t key hash_byte i = do
  entry ← element t.table i
  let later = probe rounds t key hash_byte (next_index t i)
  if not (entry.hash_byte == hash_byte) && not (entry.hash_byte == 0)
      then later
      else check_entry t key hash_byte i entry later

unfoldable pub lookup : LookupHtbl → List ℕ → Run LookupResult
unfolding hash reduce probe
lookup t key =
    let key_hash = hash key t.hash_secret in
    if length t.table == 0
    then panic
    else probe (length t.table) t key (key_hash / 2 ^ 32 % 256) (reduce key_hash (length t.table))

unfoldable pub is_found : LookupResult → Bool
is_found (found i d) = true
is_found (not_found i h) = false

unfoldable pub contains_key : LookupHtbl → List ℕ → Run Bool
unfolding lookup is_found
contains_key t key =
    if length t.table == 0 then ok false else (lookup t key >>= λ r. ok (is_found r))

unfoldable pub value_of : LookupHtbl → LookupResult → Run (Option (List ℕ))
unfolding read_value
value_of t (found i d) = read_value t d >>= λ v. ok (some v)
value_of t (not_found i h) = ok none

unfoldable pub get : LookupHtbl → List ℕ → Run (Option (List ℕ))
unfolding lookup value_of
get t key = if t.used_entries == 0 then ok none else (lookup t key >>= value_of t)
