-- ===== src/Lookup/Refines.antt =====
-- `insert` and `extend` of oak_functions_service/src/lookup_htbl.rs update the map that the table
-- stands for.
use not_an_oak_fork.Base.{
  ℕ, suc, ◌+◌, ◌*◌, ◌^◌, ◌≤◌, ◌<◌, ◌≡◌, refl, sym, ap, ◌∙◌, subst, inl, inr, false, Bool-cases,
  if◌then◌else◌, leb, ◌==◌, ==_iff, Option, some, none, List, [], ◌∷◌, length, set, length-set,
  arith, leb_false→lt, bytes_eq,
}
use not_an_oak_fork.Lookup.Run.{ok, ◌>>=◌}
use not_an_oak_fork.Lookup.Hash.{hash, reduce}
use not_an_oak_fork.Lookup.Htbl.{Entry, read_index, LookupHtbl, lookup}
use not_an_oak_fork.Lookup.Insert.{make_room, new_data, put_at, insert, extend}
use not_an_oak_fork.Lookup.Slots.{Slots, fill}
use not_an_oak_fork.Lookup.View.{count, Placed, view, Ends-Fits, count-fill, fill-Placed, view-fill}
use not_an_oak_fork.Lookup.NewDataLaws.{Adds, new_data-Adds}
use not_an_oak_fork.Lookup.ProbeLaws.{Matches, Holds}
use not_an_oak_fork.Lookup.TableLaws.{
  home_of, Represents, homes-lt, with_entries, with_entries-HeapValid, entry_for, set-Holds,
}
use not_an_oak_fork.Lookup.PutLaws.{put_at-Puts}
use not_an_oak_fork.Lookup.ReserveLaws.{no_slots, count-no_slots, reserve-Represents}
use not_an_oak_fork.Lookup.GrownLaws.{view_of, grow_table-Represents}
use not_an_oak_fork.Lookup.Models.{LookupMap, update, Models, no_table, has_table, no_slots-view}

-- room for one more entry
pub make_room-Represents :
    (secret : ℕ) (t : LookupHtbl) (f : LookupMap)
    → 0 < secret
    → t.used_data ≤ 2 ^ 40
    → Models t f
    → (u : LookupHtbl) × (s : Slots) × (make_room secret t ≡ ok u)
      × Represents u s
      × ((k : List ℕ) → view_of u s k ≡ f k)
      × (u.used_entries < u.max_entries)
      × (u.used_data ≤ suc t.used_data)
unfolding make_room
make_room-Represents secret t f random room (no_table e used none_there) =
    let (u, run, rep, data_used) = reserve-Represents secret 1 t used random (omega arith) in
    (
      u,
      no_slots,
      rw ((==_iff (length t.table) 0).1 e) run,
      rep,
      (λ k. no_slots-view u k (omega (arith, rep.spare)) ∙ sym (none_there k)),
      omega (arith, rep.counted, count-no_slots (length u.table), rep.some_entry),
      omega (arith, data_used),
    )
make_room-Represents secret t f random room (has_table s rep means) =
    let some_table : (length t.table == 0) ≡ false = (let z = rep.spare in ground arith) in
    elim (Bool-cases (leb t.max_entries t.used_entries)) [
      | inl y ↦
          let (u, r, run, rep', same, max, used, data_used) =
            grow_table-Represents t s rep room secret in
          (
            u,
            r,
            rw (some_table, y) run,
            rep',
            (λ k. same k ∙ means k),
            omega (arith, max, used, rep.load, rep.some_entry),
            omega (arith, data_used),
          )
      | inr n ↦ (
        t,
        s,
        rw (some_table, n) refl,
        rep,
        means,
        leb_false→lt t.max_entries t.used_entries n,
        omega arith,
      )
    ]

-- the table of `u`, with the chunks of `r`
abbrev with_data : LookupHtbl → LookupHtbl → LookupHtbl
with_data u r = record r {
  table = u.table;
  max_entries = u.max_entries;
  used_entries = u.used_entries;
  hash_secret = u.hash_secret;
}

with_data-eq :
    (u r : LookupHtbl) (key value : List ℕ) (d : ℕ) → Adds u key value d r → r ≡ with_data u r
with_data-eq u r key value d adds = λ i. record r {
  table = adds.same.table i;
  max_entries = adds.same.max_entries i;
  used_entries = adds.same.used_entries i;
  hash_secret = adds.same.hash_secret i;
}

with_data-Matches :
    (u r : LookupHtbl) (key value : List ℕ) (d : ℕ)
    → Adds u key value d (with_data u r)
    → (o : Option (List ℕ × List ℕ)) (e : Entry) → Matches u o e
    → Matches (with_data u r) o e
with_data-Matches u r key value d adds none e m = m
with_data-Matches u r key value d adds (some (k, v)) e (h, x) = (h, adds.keeps (read_index e) k v x)

-- A key and its value in a table with room for one more
insert_in :
    (u : LookupHtbl) (s : Slots) (key value : List ℕ)
    → Represents u s
    → u.used_entries < u.max_entries
    → 11 + length key + length value < 2 ^ 21
    → u.used_data + 2 ^ 21 ≤ 2 ^ 40
    → (t : LookupHtbl) × (r : Slots) × ((new_data key value u >>= λ x.
          lookup x.1 key >>= put_at x.1 x.0)
        ≡ ok (view_of u s key, t))
      × Represents t r
      × ((k : List ℕ) → view_of t r k ≡ (if bytes_eq k key then some value else view_of u s k))
      × (t.used_data ≤ u.used_data + 2 * (10 + length key + length value))
insert_in u s key value rep few small room =
    let (d, r, run, adds0) = new_data-Adds u key value rep.heap small in
    let same = with_data-eq u r key value d adds0 in
    let adds = subst (Adds u key value d) same adds0 in
    let w = with_data u r in
    let pos : 0 < length u.table = omega (arith, rep.spare) in
    let holds : Holds w s =
      λ i e there. with_data-Matches u r key value d adds (s i) e (rep.holds i e there) in
    let p =
      put_at-Puts w s adds.valid holds pos d key value
        (omega (arith, rep.counted, few, rep.spare)) in
    let n = length u.table in
    let homes = λ (k : List ℕ). homes-lt u k pos in
    let (h, fits) = Ends-Fits n (home_of u) homes s key p.slot p.ends in
    let entry = entry_for w key d p.entry in
    let table = set u.table p.slot entry in
    let long : length table ≡ n = length-set u.table p.slot entry in
    let c = count-fill n p.slot s key value h in
    (
      with_entries w table u.max_entries p.used,
      fill s p.slot key value,
      rw (run, ap (λ x. lookup x key >>= put_at x d) same) p.runs,
      record {
        heap = with_entries-HeapValid w table u.max_entries p.used adds.valid;
        holds =
            set-Holds w s p.slot d u.max_entries p.used p.entry key value h
              (omega (arith, adds.near, small, room)) adds.stored holds;
        placed =
            subst (λ n. Placed n (λ k. reduce (hash k u.hash_secret) n) (fill s p.slot key value))
              (sym long) (fill-Placed n (home_of u) homes s key value p.slot rep.placed p.ends);
        counted =
            ap (λ n. count n (fill s p.slot key value)) long
            ∙ omega (arith, p.counted, rep.counted);
        load = omega (arith, p.counted, rep.counted, c, few);
        spare = omega (arith, long, rep.spare);
        some_entry = rep.some_entry;
      },
      (λ k.
          subst
            (λ n.
              view n (λ k. reduce (hash k u.hash_secret) n) (fill s p.slot key value) k
              ≡ (if bytes_eq k key then some value else view_of u s k))
            (sym long) (view-fill n (home_of u) homes s key value k p.slot rep.placed p.ends)),
      adds.grown,
    )

-- A table that stands for a map, a nonzero secret, a key and a value whose lengths are together
-- less than 2^21 - 11, and less than 2^40 - 2^22 bytes in use or reserved: `insert` ends
-- without a panic, also where the table has to be made or to grow; it returns the value that
-- the map has at the key, or none; the new table stands for the map updated at the key and
-- nowhere else; and it uses at most 2^22 bytes more.
pub insert-Models :
    (secret : ℕ) (key value : List ℕ) (t : LookupHtbl) (f : LookupMap)
    → 0 < secret
    → 11 + length key + length value < 2 ^ 21
    → t.used_data + 2 ^ 22 ≤ 2 ^ 40
    → Models t f
    → (u : LookupHtbl) × (insert secret key value t ≡ ok (f key, u))
      × Models u (update f key value)
      × (u.used_data ≤ t.used_data + 2 ^ 22)
unfolding insert
insert-Models secret key value t f random small room models =
    let (roomy, s, run, rep, means, few, data_used) =
      make_room-Represents secret t f random (omega arith) models in
    let (u, r, run', rep', means', grown) =
      insert_in roomy s key value rep few small (omega (arith, data_used)) in
    (
      u,
      rw run (run' ∙ ap (λ o. ok (o, u)) (means key)),
      Models.has_table r rep'
          (λ k. means' k ∙ ap (λ o. if bytes_eq k key then some value else o) (means k)),
      omega (arith, grown, data_used, small),
    )

abbrev pub updates : LookupMap → List (List ℕ × List ℕ) → LookupMap
updates f [] = f
updates f ((k, v) ∷ rest) = updates (update f k v) rest

-- All pairs fit in a chunk.
abbrev pub AllSmall : List (List ℕ × List ℕ) → Type 0
AllSmall [] = Unit {0}
AllSmall ((k, v) ∷ rest) = (11 + length k + length v < 2 ^ 21) × AllSmall rest

-- Pairs are inserted one after the other.
pub extend-Models :
    (secret : ℕ) (new_data : List (List ℕ × List ℕ)) (t : LookupHtbl) (f : LookupMap)
    → 0 < secret
    → AllSmall new_data
    → t.used_data + length new_data * 2 ^ 22 ≤ 2 ^ 40
    → Models t f
    → (u : LookupHtbl) × (extend secret new_data t ≡ ok u)
      × Models u (updates f new_data)
      × (u.used_data ≤ t.used_data + length new_data * 2 ^ 22)
unfolding extend
extend-Models secret [] t f random small room models = (t, refl, models, omega arith)
extend-Models secret ((k, v) ∷ rest) t f random (h, small) room models =
    let (u, run, models', grown) =
      insert-Models secret k v t f random h (omega (arith, room)) models in
    let (w, run', models'', grown') =
      extend-Models secret rest u (update f k v) random small (omega (arith, room, grown))
        models' in
    (w, rw run run', models'', omega (arith, grown, grown'))
