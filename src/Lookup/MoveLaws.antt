-- ===== src/Lookup/MoveLaws.antt =====
-- The loop of `grow_table` in oak_functions_service/src/lookup_htbl.rs.
use not_an_oak_fork.Base.{
  ℕ, suc, ◌+◌, ◌*◌, ◌^◌, ◌≤◌, ◌<◌, ◌≡◌, refl, sym, ap, ◌∙◌, subst, inl, inr, false, Bool-cases,
  Option-cases, ◌==◌, ==_iff, some, List, [], ◌∷◌, length, set, length-set, arith, bytes_eq,
  bytes_eq_iff, some-inj,
}
use not_an_oak_fork.Lookup.Run.{ok}
use not_an_oak_fork.Lookup.Hash.{hash, reduce}
use not_an_oak_fork.Lookup.Htbl.{Entry, default_entry, LookupHtbl, element, read_index}
use not_an_oak_fork.Lookup.Insert.{place_entry, move_to, move_entry, move_entries}
use not_an_oak_fork.Lookup.Slots.{Slots, at, vacant, fill}
use not_an_oak_fork.Lookup.View.{
  count, find, Placed, Ends-Fits, count-fill, vacant-none, fill-Placed, find-fill,
}
use not_an_oak_fork.Lookup.Placed.{seek-fill_other}
use not_an_oak_fork.Lookup.HeapLaws.{HeapValid, Stored, read_key-Stored}
use not_an_oak_fork.Lookup.ElementLaws.{element-of_lt, lt_of_element}
use not_an_oak_fork.Lookup.TableLaws.{
  home_of, find_in, Represents, homes-lt, with_entries-HeapValid, with_entries-Stored, set-Holds,
  entry_for,
}
use not_an_oak_fork.Lookup.PutLaws.{lookup-vacant}
use not_an_oak_fork.Lookup.GrowLaws.{moving, Moved, Moved-none, new_spot}

module _ (t : LookupHtbl) (s : Slots) (rep : Represents t s) (room : t.used_data ≤ 2 ^ 40) where
  heap_of : (table : List Entry) → HeapValid (moving t s rep room table)
  heap_of table = with_entries-HeapValid t table (t.max_entries * 2) t.used_entries rep.heap

  -- An old slot with a key is written to the spot where the search for the key ends.
  module _ (i : ℕ) (table : List Entry) (r : Slots) (m : Moved t s rep room i table r)
      (k v : List ℕ) (h : i < length t.table) (p : s i ≡ some (k, v)) (j : ℕ)
      (q : find_in (moving t s rep room table) r k ≡ vacant j) (e : Entry)
      (x : Stored t (read_index e) k v) (e0 : Entry) where
    u : LookupHtbl
    u = moving t s rep room table

    pos : 0 < length table
    pos = omega (arith, m.long)

    homes : (k : List ℕ) → home_of (moving t s rep room table) k < length table
    homes k = homes-lt (moving t s rep room table) k pos

    table' : List Entry
    table' = set table j (entry_for (moving t s rep room table) k (read_index e) e0)

    same_length : length table' ≡ length table
    unfolding table'
    same_length = length-set table j (entry_for (moving t s rep room table) k (read_index e) e0)

    old-search :
        (k' : List ℕ) {o : ℕ} {v' : List ℕ}
        → find_in (moving t s rep room table) r k' ≡ at o v'
        → bytes_eq k' k ≡ false
    old-search k' {o} {v'} f = elim (Bool-cases (bytes_eq k' k)) [
      | inl y ↦ absurd (
          let g =
            subst (λ z. find_in (moving t s rep room table) r z ≡ at o v') ((bytes_eq_iff k' k).0 y)
              f in
          let z = sym g ∙ q in cc)
      | inr n ↦ n
    ]

    -- The search in the table with the new entry
    search :
        (k' v' : List ℕ) (o : ℕ)
        → find (length table) (home_of (moving t s rep room table)) (fill r j k v) k' ≡ at o v'
        → find_in (moving t s rep room table') (fill r j k v) k' ≡ at o v'
    search k' v' o f =
        subst (λ n. find n (λ k. reduce (hash k t.hash_secret) n) (fill r j k v) k' ≡ at o v')
          (sym same_length) f

    stored_lt : read_index e < 2 ^ 40
    stored_lt = omega (arith, x.used, x.not_empty)

    moved : Moved t s rep room (suc i) table' (fill r j k v)
    unfolding count table'
    moved = record {
      long = same_length ∙ m.long;
      holds =
          set-Holds (moving t s rep room table) r j (read_index e) (t.max_entries * 2)
            t.used_entries e0 k v
            (Ends-Fits (length table) (home_of (moving t s rep room table)) homes r k j (inl q)).0
            stored_lt
            (with_entries-Stored t table (t.max_entries * 2) t.used_entries (read_index e) k v x)
            m.holds;
      placed =
          subst (λ n. Placed n (λ k. reduce (hash k t.hash_secret) n) (fill r j k v))
            (sym same_length)
            (fill-Placed (length table) (home_of (moving t s rep room table)) homes r k v j m.placed
              (inl q));
      from_old = λ j' k' v' f. elim (Bool-cases (j' == j)) [
        | inl y ↦ let z : some (k, v) ≡ some (k', v') = rw y at f in (i, omega arith, p ∙ z)
        | inr n ↦ (let (a, b, c) = m.from_old j' k' v' (rw n at f) in (a, omega arith, c))
      ];
      has_old = λ o k' v' g f. elim (Bool-cases (o == i)) [
        | inl y ↦
            let z : some (k, v) ≡ some (k', v') = sym p ∙ ap s (sym ((==_iff o i).0 y)) ∙ f in
            let kk : k ≡ k' = ap (λ q. q.0) (some-inj z) in
            let vv : v ≡ v' = ap (λ q. q.1) (some-inj z) in
            let here =
              find-fill (length table) (home_of (moving t s rep room table)) homes r k v j
                (inl q) in
            (j, search k' v' j (rw (← kk, ← vv) here))
        | inr n ↦
            let (a, b) = m.has_old o k' v' (ground arith) f in
            (
              a,
              search k' v' a (
                  seek-fill_other (length table) j r k v
                    (Ends-Fits (length table) (home_of (moving t s rep room table)) homes r k j
                      (inl q)).1
                    (length table) (home_of (moving t s rep room table) k') k' (old-search k' b) b),
            )
      ];
      counted =
          let c =
            count-fill (length table) j r k v
              (Ends-Fits (length table) (home_of (moving t s rep room table)) homes r k j
                (inl q)).0 in
          let c' =
            rw (vacant-none (length table) (home_of (moving t s rep room table)) homes r k j q) at
              c in
          rw (ap (λ n. count n (fill r j k v)) same_length, p) (omega (arith, c', m.counted));
    }

  -- a round of the loop, at an old entry
  pub move_entry-Moved :
      (i : ℕ) (table : List Entry) (r : Slots) (e : Entry)
      → Moved t s rep room i table r
      → element t.table i ≡ ok e
      → (table' : List Entry) × (r' : Slots) × (move_entry (moving t s rep room table) e
          ≡ ok (moving t s rep room table'))
        × Moved t s rep room (suc i) table' r'
  unfolding move_entry move_to place_entry table'
  move_entry-Moved i table r e m there =
      let h = lt_of_element t.table i e there in
      let matches = rep.holds i e there in
      elim (Option-cases (s i)) [
        | inl p ↦
            let (_, null) = rw p at matches in
            (
              table,
              r,
              rw ((==_iff (read_index e) 0).1 null) refl,
              Moved-none t s rep room i table r p m,
            )
        | inr ((k, v), p) ↦
            let (_, x) = rw p at matches in
            let u = moving t s rep room table in
            let (j, q) = new_spot t s rep room i table r k v h p m in
            let positive : (read_index e == 0) ≡ false = (let z = x.positive in ground arith) in
            let key =
              (read_key-Stored u (heap_of table) (read_index e) k v (
                with_entries-Stored t table (t.max_entries * 2) t.used_entries (read_index e) k v
                  x)).0 in
            let n = pos i table r m k v h p j q e x default_entry in
            let homes = λ (k : List ℕ). homes-lt u k n in
            let run = lookup-vacant u r (heap_of table) m.holds n k j q in
            let (e0, spot) =
              element-of_lt table j (Ends-Fits (length table) (home_of u) homes r k j (inl q)).0 in
            (
              table' i table r m k v h p j q e x e0,
              fill r j k v,
              rw (positive, key, run, spot) refl,
              moved i table r m k v h p j q e x e0,
            )
      ]

  -- the loop, from the old entry `i` on
  pub move_entries-Moved :
      (old table : List Entry) (i : ℕ) (r : Slots)
      → ((m : ℕ) (e : Entry) → element old m ≡ ok e → element t.table (i + m) ≡ ok e)
      → Moved t s rep room i table r
      → (table' : List Entry) × (r' : Slots) × (move_entries old (moving t s rep room table)
          ≡ ok (moving t s rep room table'))
        × Moved t s rep room (i + length old) table' r'
  unfolding move_entries element
  move_entries-Moved [] table i r rest m =
      (table, r, refl, subst (λ n. Moved t s rep room n table r) (omega arith) m)
  move_entries-Moved (e ∷ old) table i r rest m =
      let first : element t.table i ≡ ok e = ap (element t.table) (omega arith) ∙ rest 0 e refl in
      let (table1, r1, run1, m1) = move_entry-Moved i table r e m first in
      let (table2, r2, run2, m2) =
        move_entries-Moved old table1 (suc i) r1
          (λ n x there. ap (element t.table) (omega arith) ∙ rest (suc n) x there) m1 in
      (table2, r2, rw (run1) run2, subst (λ n. Moved t s rep room n table2 r2) (omega arith) m2)
