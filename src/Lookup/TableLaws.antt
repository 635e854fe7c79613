-- ===== src/Lookup/TableLaws.antt =====
-- A table that represents slots: lookups, and what writing an entry does.
use not_an_oak_fork.Base.{
  ℕ, ◌^◌, ◌≤◌, ◌<◌, ◌≡◌, refl, sym, ap, ◌∙◌, subst, inl, inr, Bool-cases, ◌==◌, ==_iff, Option,
  some, none, List, length, set, arith, from_le_bytes-to_le_bytes,
}
use not_an_oak_fork.Lookup.Hash.{hash, reduce}
use not_an_oak_fork.Lookup.HashLaws.{hash-lt, reduce-lt}
use not_an_oak_fork.Lookup.Htbl.{Entry, LookupHtbl, element, read_index, write_index}
use not_an_oak_fork.Lookup.Slots.{Slots, Seek, fill}
use not_an_oak_fork.Lookup.View.{count, find, Placed}
use not_an_oak_fork.Lookup.HeapLaws.{HeapValid, Stored}
use not_an_oak_fork.Lookup.ElementLaws.{element-set_self, element-set_ne}
use not_an_oak_fork.Lookup.ProbeLaws.{byte_of, Matches, Holds}

abbrev pub home_of : LookupHtbl → List ℕ → ℕ
home_of t k = reduce (hash k t.hash_secret) (length t.table)

abbrev pub find_in : LookupHtbl → Slots → List ℕ → Seek
find_in t s k = find (length t.table) (home_of t) s k

-- The table holds the slots, has its keys where they are searched, and has an entry to spare.
pub record Represents (t : LookupHtbl) (s : Slots) : Type 0 where
  pub heap : HeapValid t
  pub holds : Holds t s
  pub placed : Placed (length t.table) (home_of t) s
  pub counted : count (length t.table) s ≡ t.used_entries
  pub load : t.used_entries ≤ t.max_entries
  pub spare : t.max_entries < length t.table
  pub some_entry : 0 < t.max_entries

pub homes-lt : (t : LookupHtbl) (k : List ℕ) → 0 < length t.table → home_of t k < length t.table
homes-lt t k h = reduce-lt (hash k t.hash_secret) (length t.table) (hash-lt k t.hash_secret) h

-- Other entries with the same chunks
abbrev pub with_entries : LookupHtbl → List Entry → ℕ → ℕ → LookupHtbl
with_entries t table max_entries used_entries = record t {
  table = table;
  max_entries = max_entries;
  used_entries = used_entries;
}

pub with_entries-HeapValid :
    (t : LookupHtbl) (table : List Entry) (m u : ℕ)
    → HeapValid t
    → HeapValid (with_entries t table m u)
with_entries-HeapValid t table m u h = record {
  size = h.size;
  mask = h.mask;
  large = h.large;
  sizes = h.sizes;
  null_unused = h.null_unused;
  chunks = h.chunks;
}

pub with_entries-Stored :
    (t : LookupHtbl) (table : List Entry) (m u d : ℕ) (k v : List ℕ)
    → Stored t d k v
    → Stored (with_entries t table m u) d k v
with_entries-Stored t table m u d k v x = record {
  chunk_index = x.chunk_index;
  index = x.index;
  width = x.width;
  chunk = x.chunk;
  splits = x.splits;
  positive = x.positive;
  not_empty = x.not_empty;
  inside = x.inside;
  used = x.used;
  there = x.there;
  reads = x.reads;
}

pub with_entries-Matches :
    (t : LookupHtbl) (table : List Entry) (m u : ℕ) (o : Option (List ℕ × List ℕ)) (e : Entry)
    → Matches t o e
    → Matches (with_entries t table m u) o e
with_entries-Matches t table m u none e x = x
with_entries-Matches t table m u (some (k, v)) e (h, x) =
    (h, with_entries-Stored t table m u (read_index e) k v x)

pub read_index-write_index : (e : Entry) (d : ℕ) → d < 2 ^ 40 → read_index (write_index e d) ≡ d
unfolding read_index write_index
read_index-write_index e d h = from_le_bytes-to_le_bytes 5 d h

-- the entry that stands for a pair
abbrev pub entry_for : LookupHtbl → List ℕ → ℕ → Entry → Entry
entry_for t k d e = write_index (record e { hash_byte = byte_of t k }) d

-- Writing such an entry writes the slot.
pub set-Holds :
    (t : LookupHtbl) (s : Slots) (j d m u : ℕ) (e : Entry) (k v : List ℕ)
    → j < length t.table
    → d < 2 ^ 40
    → Stored t d k v
    → Holds t s
    → Holds (with_entries t (set t.table j (entry_for t k d e)) m u) (fill s j k v)
unfolding write_index
set-Holds t s j d m u e k v h p x holds i e' there = elim (Bool-cases (i == j)) [
  | inl y ↦
      let ij = (==_iff i j).0 y in
      let table = set t.table j (entry_for t k d e) in
      let same : entry_for t k d e ≡ e' =
        (let r =
            sym (element-set_self t.table j (entry_for t k d e) h)
            ∙ ap (element table) (sym ij)
            ∙ there in
          cc) in
      let index = read_index-write_index (record e { hash_byte = byte_of t k }) d p in
      rw (y, ← same)
        (refl, with_entries-Stored t table m u _ k v (subst (λ z. Stored t z k v) (sym index) x))
  | inr n ↦ rw n (
      with_entries-Matches t (set t.table j (entry_for t k d e)) m u (s i) e'
        (holds i e' (sym (element-set_ne t.table j i (entry_for t k d e) (ground arith)) ∙ there)))
]
