-- ===== src/Lookup/GrowLaws.antt =====
-- `grow_table` of oak_functions_service/src/lookup_htbl.rs keeps every key and its value.
use not_an_oak_fork.Base.{
  ℕ, zero, suc, ◌*◌, ◌^◌, ◌≤◌, ◌<◌, ◌≡◌, sym, ap, ◌∙◌, inl, inr, Bool-cases, Option-cases, ◌==◌,
  ==_iff, some, none, List, length, arith,
}
use not_an_oak_fork.Lookup.Htbl.{Entry, LookupHtbl}
use not_an_oak_fork.Lookup.Slots.{Slots, at, vacant}
use not_an_oak_fork.Lookup.View.{count, Placed, find-Ends, at-some}
use not_an_oak_fork.Lookup.ProbeLaws.{Holds}
use not_an_oak_fork.Lookup.TableLaws.{home_of, find_in, Represents, homes-lt, with_entries}

module _ (t : LookupHtbl) (s : Slots) (rep : Represents t s) (room : t.used_data ≤ 2 ^ 40) where
  -- the table after some of the entries have been moved
  abbrev pub moving : List Entry → LookupHtbl
  moving table = with_entries t table (t.max_entries * 2) t.used_entries

  -- The table `table` has the first `i` of the old slots.
  pub record Moved (i : ℕ) (table : List Entry) (r : Slots) : Type 0 where
    pub long : length table ≡ length t.table * 2
    pub holds : Holds (moving table) r
    pub placed : Placed (length table) (home_of (moving table)) r
    pub from_old :
        (j : ℕ) (k v : List ℕ) → r j ≡ some (k, v) → (m : ℕ) × (m < i) × (s m ≡ some (k, v))
    pub has_old :
        (m : ℕ) (k v : List ℕ)
        → m < i
        → s m ≡ some (k, v)
        → (j : ℕ) × (find_in (moving table) r k ≡ at j v)
    pub counted : count (length table) r ≡ count i s

  pub count-le : (i : ℕ) → count i s ≤ i
  unfolding count
  count-le zero = omega arith
  count-le (suc i) = elim (Option-cases (s i)) [
    | inl p ↦ rw p (omega (arith, count-le i))
    | inr (x, p) ↦ rw p (omega (arith, count-le i))
  ]

  -- An old slot that is empty changes nothing.
  pub Moved-none :
      (i : ℕ) (table : List Entry) (r : Slots)
      → s i ≡ none
      → Moved i table r
      → Moved (suc i) table r
  unfolding count
  Moved-none i table r p m = record {
    long = m.long;
    holds = m.holds;
    placed = m.placed;
    from_old = λ j k v e. (let (x, h, q) = m.from_old j k v e in (x, omega arith, q));
    has_old = λ x k v h e. elim (Bool-cases (x == i)) [
      | inl y ↦ absurd (let z = ap s ((==_iff x i).0 y) in cc)
      | inr n ↦ m.has_old x k v (ground arith) e
    ];
    counted = rw p (omega (arith, m.counted));
  }

  -- The key of an old slot is not in the new table yet.
  not_moved :
      (i j : ℕ) (table : List Entry) (r : Slots) (k v w : List ℕ)
      → i < length t.table
      → s i ≡ some (k, v)
      → Moved i table r
      → ¬ (r j ≡ some (k, w))
  not_moved i j table r k v w h p m e =
      let (x, g, q) = m.from_old j k w e in
      let here = rep.placed i k v h p in
      let there = rep.placed x k w (omega arith) q in
      let same : x ≡ i = (let z = sym there ∙ here in cc) in omega (arith, same)

  pub new_spot :
      (i : ℕ) (table : List Entry) (r : Slots) (k v : List ℕ)
      → i < length t.table
      → s i ≡ some (k, v)
      → Moved i table r
      → (j : ℕ) × (find_in (moving table) r k ≡ vacant j)
  new_spot i table r k v h p m =
      let n = length table in
      let homes = λ (k : List ℕ). homes-lt (moving table) k (omega (arith, m.long)) in
      let (j, ends) =
        find-Ends n (home_of (moving table)) homes r k
          (omega (arith, m.counted, m.long, count-le i)) in
      elim ends [
        | inl q ↦ (j, q)
        | inr (w, q) ↦
            absurd (
              not_moved i j table r k v w h p m
                (at-some n (home_of (moving table)) homes r k w j q))
      ]
