-- ===== src/Lookup/Models.antt =====
-- The map that a `LookupHtbl` of oak_functions_service/src/lookup_htbl.rs stands for: what `get`,
-- `contains_key` and `reserve` have to do with it.
use not_an_oak_fork.Base.{
  ℕ, zero, suc, ◌+◌, ◌*◌, ◌/◌, ◌≤◌, ◌<◌, ◌≡◌, refl, sym, ap, ◌∙◌, inl, inr, false, Bool-cases,
  if◌then◌else◌, ◌==◌, ==_iff, Option, some, none, List, length, length-replicate, arith, bytes_eq,
}
use not_an_oak_fork.Lookup.Run.{ok}
use not_an_oak_fork.Lookup.Htbl.{default_entry, LookupHtbl, reserve, contains_key, get}
use not_an_oak_fork.Lookup.Slots.{Slots}
use not_an_oak_fork.Lookup.View.{count, find, view, Seek-cases, at-some, at-lt}
use not_an_oak_fork.Lookup.TableLaws.{home_of, Represents, homes-lt}
use not_an_oak_fork.Lookup.PutLaws.{is_some, lookup-value, lookup-is_found}
use not_an_oak_fork.Lookup.ReserveLaws.{no_slots, reserve-Represents, reserved, reserve-reserved}
use not_an_oak_fork.Lookup.GrownLaws.{view_of}

abbrev pub LookupMap : Type 0
LookupMap = List ℕ → Option (List ℕ)

abbrev pub no_keys : LookupMap
no_keys k = none

abbrev pub update : LookupMap → List ℕ → List ℕ → LookupMap
update f k v o = if bytes_eq o k then some v else f o

-- The table stands for the map: it has no entries yet and the map no keys, or it represents slots
-- that mean the map.
pub data Models (t : LookupHtbl) (f : LookupMap) : Type 0 where
  no_table : length t.table ≡ 0 → t.used_entries ≡ 0 → ((k : List ℕ) → f k ≡ none) → Models t f
  has_table : (s : Slots) → Represents t s → ((k : List ℕ) → view_of t s k ≡ f k) → Models t f

pub no_slots-view : (t : LookupHtbl) (k : List ℕ) → 0 < length t.table → view_of t no_slots k ≡ none
unfolding view
no_slots-view t k pos = elim (Seek-cases (find (length t.table) (home_of t) no_slots k)) [
  | inl (j, w, e) ↦
      absurd (
        let p = at-some (length t.table) (home_of t) (λ k. homes-lt t k pos) no_slots k w j e in cc)
  | inr (inl (j, e)) ↦ rw e refl
  | inr (inr e) ↦ rw e refl
]

count-some : (n j : ℕ) (s : Slots) {x : List ℕ × List ℕ} → j < n → s j ≡ some x → 0 < count n s
unfolding count
count-some zero j s h p = absurd (omega arith)
count-some (suc n) j s h p = elim (Bool-cases (n == j)) [
  | inl y ↦ rw ((==_iff n j).0 y, p) (omega arith)
  | inr z ↦ omega (arith, count-some n j s (ground arith) p)
]

unused-view :
    (t : LookupHtbl) (s : Slots) (k : List ℕ)
    → Represents t s
    → t.used_entries ≡ 0
    → view_of t s k ≡ none
unfolding view
unused-view t s k rep e =
    let homes = λ (k : List ℕ). homes-lt t k (omega (arith, rep.spare)) in
    elim (Seek-cases (find (length t.table) (home_of t) s k)) [
      | inl (j, w, q) ↦
          let p = at-some (length t.table) (home_of t) homes s k w j q in
          let h = at-lt (length t.table) (home_of t) homes s k w j q in
          absurd (omega (arith, count-some (length t.table) j s h p, rep.counted))
      | inr (inl (j, q)) ↦ rw q refl
      | inr (inr q) ↦ rw q refl
    ]

unused :
    (t : LookupHtbl) (f : LookupMap) (k : List ℕ) → t.used_entries ≡ 0 → Models t f → f k ≡ none
unused t f k e (no_table a u none_there) = none_there k
unused t f k e (has_table s rep means) = sym (means k) ∙ unused-view t s k rep e

-- no entries at all
reserve-none :
    (secret m : ℕ) (t : LookupHtbl) (f : LookupMap)
    → 0 < secret
    → t.used_entries ≡ 0
    → m ≡ 0
    → ((k : List ℕ) → f k ≡ none)
    → (u : LookupHtbl) × (reserve secret m t ≡ ok u) × Models u f × (u.used_data ≤ suc t.used_data)
unfolding reserve
reserve-none secret m t f random empty none_asked no_values =
    let n = (5 * m + 1) / 3 in
    let nothing : n ≡ 0 = omega (arith, none_asked) in
    (
      reserved secret m,
      reserve-reserved secret m t empty random,
      Models.no_table (length-replicate n default_entry ∙ nothing) refl no_values,
      omega arith,
    )

get_lem : (t : LookupHtbl) (f : LookupMap) (k : List ℕ) → Models t f → get t k ≡ ok (f k)
unfolding get
get_lem t f k (no_table e u none_there) = rw ((==_iff t.used_entries 0).1 u, none_there k) refl
get_lem t f k (has_table s rep means) = elim (Bool-cases (t.used_entries == 0)) [
  | inl y ↦ rw y (ap ok (sym (unused-view t s k rep ((==_iff t.used_entries 0).0 y)) ∙ means k))
  | inr n ↦ rw n (
      lookup-value t s rep.heap rep.holds (omega (arith, rep.spare)) k
        (omega (arith, rep.counted, rep.load, rep.spare))
      ∙ ap ok (means k))
]

contains_key_lem :
    (t : LookupHtbl) (f : LookupMap) (k : List ℕ)
    → Models t f
    → contains_key t k ≡ ok (is_some (f k))
unfolding contains_key
contains_key_lem t f k (no_table e u none_there) =
    rw ((==_iff (length t.table) 0).1 e, none_there k) refl
contains_key_lem t f k (has_table s rep means) =
    let some_table : (length t.table == 0) ≡ false = (let z = rep.spare in ground arith) in
    let found =
      lookup-is_found t s rep.heap rep.holds (omega (arith, rep.spare)) k
        (omega (arith, rep.counted, rep.load, rep.spare))
      ∙ ap (λ o. ok (is_some o)) (means k) in
    rw some_table (rw some_table at found)

-- For a table that stands for a map, `get` returns the map's value at a key, or none, and
-- `contains_key` says whether there is one; neither panics or goes on for ever.
pub get-Models :
    (t : LookupHtbl) (f : LookupMap) (k : List ℕ)
    → Models t f
    → (get t k ≡ ok (f k)) × (contains_key t k ≡ ok (is_some (f k)))
get-Models t f k models = (get_lem t f k models, contains_key_lem t f k models)

-- Reserving entries keeps the map.
pub reserve-Models :
    (secret m : ℕ) (t : LookupHtbl) (f : LookupMap)
    → 0 < secret
    → Models t f
    → (u : LookupHtbl) × (reserve secret m t ≡ ok u) × Models u f × (u.used_data ≤ suc t.used_data)
unfolding reserve
reserve-Models secret m t f random models = elim (Bool-cases (t.used_entries == 0)) [
  | inl y ↦
      let empty = (==_iff t.used_entries 0).0 y in
      let no_values : (k : List ℕ) → f k ≡ none = (λ k. unused t f k empty models) in
      elim (Bool-cases (m == 0)) [
        | inl z ↦ reserve-none secret m t f random empty ((==_iff m 0).0 z) no_values
        | inr n ↦
            let (u, run, rep, data_used) =
              reserve-Represents secret m t empty random (ground arith) in
            (
              u,
              run,
              Models.has_table no_slots rep
                  (λ k. no_slots-view u k (omega (arith, rep.spare)) ∙ sym (no_values k)),
              omega (arith, data_used),
            )
      ]
  | inr n ↦ (t, rw n refl, models, omega arith)
]
