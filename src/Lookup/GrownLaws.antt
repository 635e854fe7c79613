-- ===== src/Lookup/GrownLaws.antt =====
-- `grow_table` and `make_room` of oak_functions_service/src/lookup_htbl.rs as a whole.
use not_an_oak_fork.Base.{
  ℕ, ◌*◌, ◌^◌, ◌≤◌, ◌≡◌, refl, sym, ap, ◌∙◌, subst, inl, inr, false, ◌==◌, Option, none, List,
  length, replicate, length-replicate, arith,
}
use not_an_oak_fork.Lookup.Run.{ok}
use not_an_oak_fork.Lookup.Htbl.{Entry, default_entry, LookupHtbl, element, read_index}
use not_an_oak_fork.Lookup.Insert.{grow_table}
use not_an_oak_fork.Lookup.Slots.{Slots, at}
use not_an_oak_fork.Lookup.View.{count, view, value_at, Seek-cases, at-some, at-lt}
use not_an_oak_fork.Lookup.ElementLaws.{lt_of_element, element-replicate}
use not_an_oak_fork.Lookup.TableLaws.{
  home_of, find_in, Represents, homes-lt, with_entries-HeapValid,
}
use not_an_oak_fork.Lookup.ReserveLaws.{no_slots, count-no_slots}
use not_an_oak_fork.Lookup.GrowLaws.{moving, Moved}
use not_an_oak_fork.Lookup.MoveLaws.{move_entries-Moved}

abbrev pub view_of : LookupHtbl → Slots → List ℕ → Option (List ℕ)
view_of t s k = view (length t.table) (home_of t) s k

module _ (t : LookupHtbl) (s : Slots) (rep : Represents t s) (room : t.used_data ≤ 2 ^ 40) where
  empty_table : List Entry
  empty_table = replicate (length t.table * 2) default_entry

  start : Moved t s rep room 0 empty_table no_slots
  unfolding count empty_table read_index
  start = record {
    long = length-replicate (length t.table * 2) default_entry;
    holds = λ i e there.
        let h = lt_of_element empty_table i e there in
        let same : default_entry ≡ e =
          (let x =
              sym (
                element-replicate (length t.table * 2) i default_entry
                  (omega (arith, length-replicate (length t.table * 2) default_entry, h)))
              ∙ there in
            cc) in
        rw (← same) (refl, refl);
    placed = λ j k v h e. cc;
    from_old = λ j k v e. cc;
    has_old = λ m k v h e. absurd (omega arith);
    counted = count-no_slots (length empty_table);
  }

  -- A table with all the old slots means what the old one does.
  same_view :
      (table : List Entry) (r : Slots)
      → Moved t s rep room (length t.table) table r
      → (k : List ℕ) → view_of (moving t s rep room table) r k ≡ view_of t s k
  unfolding view
  same_view table r m k =
      let u = moving t s rep room table in
      let n = length t.table in
      let homes = λ (k : List ℕ). homes-lt t k (omega (arith, rep.spare)) in
      let homes' = λ (k : List ℕ). homes-lt u k (omega (arith, m.long, rep.spare)) in
      let unseen : ((o : ℕ) (w : List ℕ) → ¬ (find_in t s k ≡ at o w))
          → value_at (find_in u r k) ≡ none =
        λ no_old. elim (Seek-cases (find_in u r k)) [
          | inl (j, w, e) ↦
              let (o, h, p) =
                m.from_old j k w (at-some (length table) (home_of u) homes' r k w j e) in
              absurd (no_old o w (rep.placed o k w h p))
          | inr (inl (j, e)) ↦ rw e refl
          | inr (inr e) ↦ rw e refl
        ] in
      elim (Seek-cases (find_in t s k)) [
        | inl (o, v, e) ↦
            let p = at-some n (home_of t) homes s k v o e in
            let h = at-lt n (home_of t) homes s k v o e in
            let (j, f) = m.has_old o k v h p in rw (e, f) refl
        | inr (inl (j, e)) ↦ rw e (unseen (λ o w q. let z = sym q ∙ e in cc))
        | inr (inr e) ↦ rw e (unseen (λ o w q. let z = sym q ∙ e in cc))
      ]

  -- The table grows to twice its size
  pub grow_table-Represents :
      (secret : ℕ)
      → (u : LookupHtbl) × (r : Slots) × (grow_table secret t ≡ ok u)
        × Represents u r
        × ((k : List ℕ) → view_of u r k ≡ view_of t s k)
        × (u.max_entries ≡ t.max_entries * 2)
        × (u.used_entries ≡ t.used_entries)
        × (u.used_data ≡ t.used_data)
  unfolding grow_table empty_table
  grow_table-Represents secret =
      let (table, r, run, m) =
        move_entries-Moved t s rep room t.table empty_table 0 no_slots
          (λ i e there. ap (element t.table) (omega arith) ∙ there) start in
      let m' = subst (λ n. Moved t s rep room n table r) (omega arith) m in
      let positive : (t.max_entries == 0) ≡ false = (let z = rep.some_entry in ground arith) in
      (
        moving t s rep room table,
        r,
        rw positive run,
        record {
          heap = with_entries-HeapValid t table (t.max_entries * 2) t.used_entries rep.heap;
          holds = m'.holds;
          placed = m'.placed;
          counted = m'.counted ∙ rep.counted;
          load = omega (arith, rep.load);
          spare = omega (arith, m'.long, rep.spare);
          some_entry = omega (arith, rep.some_entry);
        },
        same_view table r m',
        refl,
        refl,
        refl,
      )
