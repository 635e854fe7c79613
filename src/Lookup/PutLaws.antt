-- ===== src/Lookup/PutLaws.antt =====
-- Lookups in a table that represents slots, and what `put_at` and `place_entry` do behind them.
use not_an_oak_fork.Base.{
  ℕ, ◌+◌, ◌<◌, ◌≡◌, refl, ap, subst, inl, inr, Bool, true, false, ◌==◌, Option, some, none, List,
  length, set, arith, to_le_bytes,
}
use not_an_oak_fork.Lookup.Run.{Run, ok, ◌>>=◌}
use not_an_oak_fork.Lookup.Htbl.{
  Entry, LookupHtbl, LookupResult, found, not_found, element, read_index, write_index, index_size,
  lookup, value_of, is_found,
}
use not_an_oak_fork.Lookup.Insert.{put_at, place_entry}
use not_an_oak_fork.Lookup.Slots.{Slots, Seek, at, vacant, fill}
use not_an_oak_fork.Lookup.View.{
  count, view, Ends, find-Ends, Ends-Fits, count-fill, vacant-none, at-some,
}
use not_an_oak_fork.Lookup.HeapLaws.{HeapValid, Stored, read_key-Stored}
use not_an_oak_fork.Lookup.ElementLaws.{element-of_lt}
use not_an_oak_fork.Lookup.ProbeLaws.{byte_of, Holds, Agrees, finds, misses, goes_round, probe-seek}
use not_an_oak_fork.Lookup.TableLaws.{
  home_of, find_in, homes-lt, with_entries, with_entries-HeapValid, with_entries-Stored, entry_for,
}

abbrev pub is_some : Option (List ℕ) → Bool
is_some none = false
is_some (some v) = true

-- what the agreement says where the search ends
Agrees-at :
    (t : LookupHtbl) (key v : List ℕ) (j : ℕ) (x : Seek) (r : Run LookupResult)
    → Agrees t key x r
    → x ≡ at j v
    → (e : Entry) × (element t.table j ≡ ok e)
      × Stored t (read_index e) key v
      × (e.hash_byte ≡ byte_of t key)
      × (r ≡ ok (found j (read_index e)))
Agrees-at t key v j _ _ (finds i w e there x h) q =
    let ij : i ≡ j = cc in
    let wv : w ≡ v = cc in
    (
      e,
      subst (λ n. element t.table n ≡ ok e) ij there,
      subst (Stored t (read_index e) key) wv x,
      h,
      ap (λ n. ok (found n (read_index e))) ij,
    )
Agrees-at t key v j _ _ (misses i) q = cc
Agrees-at t key v j _ _ goes_round q = cc

Agrees-vacant :
    (t : LookupHtbl) (key : List ℕ) (j : ℕ) (x : Seek) (r : Run LookupResult)
    → Agrees t key x r
    → x ≡ vacant j
    → r ≡ ok (not_found j (byte_of t key))
Agrees-vacant t key j _ _ (finds i w e there x h) q = cc
Agrees-vacant t key j _ _ (misses i) q =
    (let ij : i ≡ j = cc in ap (λ n. ok (not_found n (byte_of t key))) ij)
Agrees-vacant t key j _ _ goes_round q = cc

module _ (t : LookupHtbl) (s : Slots) (valid : HeapValid t) (holds : Holds t s)
    (pos : 0 < length t.table) where
  lookup-Agrees : (key : List ℕ) → Agrees t key (find_in t s key) (lookup t key)
  unfolding lookup
  lookup-Agrees key =
      let not_empty : (length t.table == 0) ≡ false = ground arith in
      rw not_empty
        (probe-seek t s valid holds key (length t.table) (home_of t key) (homes-lt t key pos))

  -- A lookup that ends where the search for the key does
  pub lookup-at :
      (key v : List ℕ) (j : ℕ)
      → find_in t s key ≡ at j v
      → (e : Entry) × (element t.table j ≡ ok e)
        × Stored t (read_index e) key v
        × (e.hash_byte ≡ byte_of t key)
        × (lookup t key ≡ ok (found j (read_index e)))
  lookup-at key v j q = Agrees-at t key v j (find_in t s key) (lookup t key) (lookup-Agrees key) q

  pub lookup-vacant :
      (key : List ℕ) (j : ℕ)
      → find_in t s key ≡ vacant j
      → lookup t key ≡ ok (not_found j (byte_of t key))
  lookup-vacant key j q =
      Agrees-vacant t key j (find_in t s key) (lookup t key) (lookup-Agrees key) q

  -- The value that a lookup leads to is the one in the slots.
  pub lookup-value :
      (key : List ℕ)
      → count (length t.table) s < length t.table
      → (lookup t key >>= value_of t) ≡ ok (view (length t.table) (home_of t) s key)
  unfolding value_of view
  lookup-value key few =
      let (j, ends) = find-Ends (length t.table) (home_of t) (λ k. homes-lt t k pos) s key few in
      elim ends [
        | inl q ↦ rw (lookup-vacant key j q, q) refl
        | inr (w, q) ↦
            let (e, there, x, h, run) = lookup-at key w j q in
            rw (run, q, (read_key-Stored t valid (read_index e) key w x).1) refl
      ]

  -- A lookup finds the keys that have a value.
  pub lookup-is_found :
      (key : List ℕ)
      → count (length t.table) s < length t.table
      → (lookup t key >>= λ r. ok (is_found r))
        ≡ ok (is_some (view (length t.table) (home_of t) s key))
  unfolding is_found view
  lookup-is_found key few =
      let (j, ends) = find-Ends (length t.table) (home_of t) (λ k. homes-lt t k pos) s key few in
      elim ends [
        | inl q ↦ rw (lookup-vacant key j q, q) refl
        | inr (w, q) ↦ (let (e, there, x, h, run) = lookup-at key w j q in rw (run, q) refl)
      ]

  -- what writing the entry of a key to the table comes to
  pub record Puts (d : ℕ) (key value : List ℕ) : Type 0 where
    pub slot : ℕ
    pub entry : Entry
    pub used : ℕ
    pub ends : Ends (length t.table) (home_of t) s key slot
    pub runs :
        (lookup t key >>= put_at t d)
        ≡ ok (
          view (length t.table) (home_of t) s key,
          with_entries t (set t.table slot (entry_for t key d entry)) t.max_entries used,
        )
    pub counted :
        used + count (length t.table) s
        ≡ t.used_entries + count (length t.table) (fill s slot key value)

  pub put_at-Puts :
      (d : ℕ) (key value : List ℕ) → count (length t.table) s < length t.table → Puts d key value
  unfolding put_at place_entry write_index view
  put_at-Puts d key value few =
      let n = length t.table in
      let homes = λ (k : List ℕ). homes-lt t k pos in
      let (j, ends) = find-Ends n (home_of t) homes s key few in
      let h = (Ends-Fits n (home_of t) homes s key j ends).0 in
      let c = count-fill n j s key value h in
      elim ends [
        | inl q ↦
            let (e, there) = element-of_lt t.table j h in
            let c' = rw (vacant-none n (home_of t) homes s key j q) at c in
            record {
              slot = j;
              entry = e;
              used = t.used_entries + 1;
              ends = inl q;
              runs = rw (lookup-vacant key j q, there, q) refl;
              counted = omega (arith, c');
            }
        | inr (w, q) ↦
            let (e, there, x, same, run) = lookup-at key w j q in
            let c' = rw (at-some n (home_of t) homes s key w j q) at c in
            let table = set t.table j (write_index e d) in
            let moved = with_entries t table t.max_entries t.used_entries in
            let old =
              (read_key-Stored moved
                (with_entries-HeapValid t table t.max_entries t.used_entries valid) (read_index e)
                key w
                (with_entries-Stored t table t.max_entries t.used_entries (read_index e) key w
                  x)).1 in
            let as_entry : write_index e d ≡ entry_for t key d e =
              ap (λ h. record { hash_byte = h; data_index = to_le_bytes index_size d }) same in
            record {
              slot = j;
              entry = e;
              used = t.used_entries;
              ends = inr (w, q);
              runs =
                  rw (run, there, q, old)
                    (ap
                      (λ x.
                        ok (some w, with_entries t (set t.table j x) t.max_entries t.used_entries))
                      as_entry);
              counted = omega (arith, c');
            }
      ]
