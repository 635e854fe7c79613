-- ===== src/Lookup/Insert.antt =====
-- The operations of `LookupHtbl` in oak_functions_service/src/lookup_htbl.rs that change it, and its
-- iterator.
use not_an_oak_fork.Base.{
  ℕ, zero, suc, ◌+◌, ◌-◌, ◌*◌, ◌/◌, ◌^◌, Bool, if◌then◌else◌, ltb, leb, ◌==◌, Option, some, none,
  List, [], ◌∷◌, ◌++◌, length, set, replicate,
}
use not_an_oak_fork.Lookup.Run.{Run, ok, panic, ◌>>=◌}
use not_an_oak_fork.Lookup.Chunk.{Chunk, zeroed, copy_from_slice, write_len}
use not_an_oak_fork.Lookup.Htbl.{
  Entry, default_entry, LookupHtbl, LookupResult, found, not_found, reserve, element, read_index,
  write_index, index_size, index_in_chunk, read_key, read_value, key_in, value_in, chunk_at, lookup,
}

-- a key and its value, written from `index` on; the index behind them
unfoldable pub write_pair : Chunk → ℕ → List ℕ → List ℕ → Run (Chunk × ℕ)
unfolding write_len copy_from_slice
write_pair chunk index key value = do
  (chunk1, key_len_size) ← write_len chunk index (length key)
  let key_index = index + key_len_size
  chunk2 ← copy_from_slice chunk1 key_index key
  let value_len_index = key_index + length key
  (chunk3, value_len_size) ← write_len chunk2 value_len_index (length value)
  let value_index = value_len_index + value_len_size
  chunk4 ← copy_from_slice chunk3 value_index value
  ok (chunk4, value_index + length value)

-- The chunk for what ends at `end_index`: a new one where there is none yet.
unfoldable pub with_chunk : ℕ → LookupHtbl → LookupHtbl
with_chunk chunk_index t =
    if leb (length t.data_chunks) chunk_index
    then record t {
      data_chunks = t.data_chunks ++ zeroed t.chunk_size ∷ [];
      used_data = if chunk_index == 0 then 1 else t.chunk_size * chunk_index;
    }
    else t

-- the part of `new_data` behind the check for a new chunk
unfoldable pub store_pair : ℕ → List ℕ → List ℕ → LookupHtbl → Run (ℕ × LookupHtbl)
unfolding element index_in_chunk write_pair
store_pair chunk_index key value t = do
  chunk ← element t.data_chunks chunk_index
  let index = index_in_chunk t t.used_data
  (written, end) ← write_pair chunk index key value
  ok (
    t.used_data,
    record t {
      data_chunks = set t.data_chunks chunk_index written;
      used_data = t.used_data + (end - index);
    },
  )

unfoldable pub new_data : List ℕ → List ℕ → LookupHtbl → Run (ℕ × LookupHtbl)
unfolding with_chunk store_pair
new_data key value t =
    let additional_data_len = 2 * index_size + length key + length value in
    let chunk_index = (t.used_data + additional_data_len) / 2 ^ t.chunk_bits in
    if ltb additional_data_len t.chunk_size
    then store_pair chunk_index key value (with_chunk chunk_index t)
    else panic

unfoldable pub place_entry : LookupHtbl → ℕ → ℕ → ℕ → Run LookupHtbl
unfolding element write_index
place_entry t table_index hash_byte data_index = do
  entry ← element t.table table_index
  ok (record t {
    table =
        set t.table table_index (write_index (record entry { hash_byte = hash_byte }) data_index);
  })

-- one round of the loop of `grow_table`
unfoldable pub move_to : LookupHtbl → ℕ → LookupResult → Run LookupHtbl
unfolding place_entry
move_to t raw_index (not_found table_index hash_byte) =
    place_entry t table_index hash_byte raw_index
move_to t raw_index (found table_index data_index) = panic

unfoldable pub move_entry : LookupHtbl → Entry → Run LookupHtbl
unfolding read_index read_key lookup move_to
move_entry t e =
    let raw_index = read_index e in
    if raw_index == 0
    then ok t
    else (read_key t raw_index >>= λ key. lookup t key >>= move_to t raw_index)

unfoldable pub move_entries : List Entry → LookupHtbl → Run LookupHtbl
unfolding move_entry
move_entries [] t = ok t
move_entries (e ∷ old_table) t = move_entry t e >>= move_entries old_table

unfoldable pub grow_table : ℕ → LookupHtbl → Run LookupHtbl
unfolding reserve move_entries
grow_table secret t =
    if t.max_entries == 0
    then reserve secret 1 t
    else move_entries t.table (record t {
      table = replicate (length t.table * 2) default_entry;
      max_entries = t.max_entries * 2;
    })

-- the room that `insert` makes first
unfoldable pub make_room : ℕ → LookupHtbl → Run LookupHtbl
unfolding reserve grow_table
make_room secret t =
    if length t.table == 0
    then reserve secret 1 t
    else if leb t.max_entries t.used_entries
    then grow_table secret t
    else ok t

unfoldable pub put_at : LookupHtbl → ℕ → LookupResult → Run (Option (List ℕ) × LookupHtbl)
unfolding element write_index read_value place_entry
put_at t data_index (found table_index old_data_index) = do
  entry ← element t.table table_index
  let t' = record t { table = set t.table table_index (write_index entry data_index) }
  old ← read_value t' old_data_index
  ok (some old, t')
put_at t data_index (not_found table_index hash_byte) = do
  t' ← place_entry t table_index hash_byte data_index
  ok (none, record t' { used_entries = t'.used_entries + 1 })

unfoldable pub insert : ℕ → List ℕ → List ℕ → LookupHtbl → Run (Option (List ℕ) × LookupHtbl)
unfolding make_room new_data lookup put_at
insert secret key value t = do
  roomy ← make_room secret t
  (data_index, t') ← new_data key value roomy
  r ← lookup t' key
  put_at t' data_index r

-- the values of `OsRng` are not used up: a table takes a secret at most once
unfoldable pub extend : ℕ → List (List ℕ × List ℕ) → LookupHtbl → Run LookupHtbl
unfolding insert
extend secret [] t = ok t
extend secret ((key, value) ∷ new_data) t = do
  (_, t') ← insert secret key value t
  extend secret new_data t'

unfoldable pub len : LookupHtbl → ℕ
len t = t.used_entries

unfoldable pub is_empty : LookupHtbl → Bool
is_empty t = t.used_entries == 0

unfoldable pub pair_at : LookupHtbl → ℕ → Run (List ℕ × List ℕ)
unfolding chunk_at index_in_chunk key_in value_in
pair_at t raw_index = do
  chunk ← chunk_at t raw_index
  key ← key_in chunk (index_in_chunk t raw_index)
  value ← value_in chunk (index_in_chunk t raw_index)
  ok (key, value)

-- `next` of the iterator: the pair, and the index of the entry that is next. As many rounds as
-- there are entries left are enough.
unfoldable pub next : ℕ → LookupHtbl → ℕ → Run (Option (List ℕ × List ℕ) × ℕ)
unfolding element read_index pair_at
next zero t table_index = ok (none, table_index)
next (suc rounds) t table_index =
    let step = do
      entry ← element t.table table_index
      let rest = next rounds t (table_index + 1)
      let here = (pair_at t (read_index entry) >>= λ pair. ok (some pair, table_index + 1))
      if read_index entry == 0 then rest else here
    in if leb (length t.table) table_index then ok (none, table_index) else step
