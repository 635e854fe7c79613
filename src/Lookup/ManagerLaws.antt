-- ===== src/Lookup/ManagerLaws.antt =====
-- The manager of oak_functions_service/src/lookup.rs implements two maps: the one that is looked up,
-- and the one that is built to replace it.
use not_an_oak_fork.Base.{ℕ, ◌+◌, ◌*◌, ◌^◌, ◌≤◌, ◌<◌, ◌≡◌, refl, List, [], ◌∷◌, length, arith}
use not_an_oak_fork.Lookup.Run.{ok}
use not_an_oak_fork.Lookup.Htbl.{default_htbl}
use not_an_oak_fork.Lookup.Manager.{
  BuilderState, Call, reserve, insert, extend, finish, abort, LookupDataManager, create_lookup_data,
  lookup_data_get, call, calls,
}
use not_an_oak_fork.Lookup.Models.{LookupMap, no_keys, update, Models, get-Models, reserve-Models}
use not_an_oak_fork.Lookup.Refines.{updates, AllSmall, insert-Models, extend-Models}

-- the map that is looked up and the map that is built
abbrev pub Maps : Type 0
Maps = LookupMap × LookupMap

-- what a call does to the two maps
abbrev pub call_maps : Call → Maps → Maps
call_maps (reserve n) s = s
call_maps (insert k v) (current, next) = (current, update next k v)
call_maps (extend l) (current, next) = (current, updates next l)
call_maps finish (current, next) = (next, no_keys)
call_maps abort (current, next) = (current, no_keys)

abbrev pub calls_maps : List (ℕ × Call) → Maps → Maps
calls_maps [] s = s
calls_maps ((secret, c) ∷ rest) s = calls_maps rest (call_maps c s)

-- The pairs of a call fit in a chunk.
abbrev pub SmallCall : Call → Type 0
SmallCall (reserve n) = Unit {0}
SmallCall (insert k v) = 11 + length k + length v < 2 ^ 21
SmallCall (extend l) = AllSmall l
SmallCall finish = Unit {0}
SmallCall abort = Unit {0}

-- The secrets are not zero, and all pairs fit in a chunk.
abbrev pub GoodCalls : List (ℕ × Call) → Type 0
GoodCalls [] = Unit {0}
GoodCalls ((secret, c) ∷ rest) = (0 < secret) × SmallCall c × GoodCalls rest

-- how many chunks the data of a call may take
abbrev pub chunks_of : Call → ℕ
chunks_of (reserve n) = 1
chunks_of (insert k v) = 1
chunks_of (extend l) = length l
chunks_of finish = 1
chunks_of abort = 1

abbrev pub chunks_of_all : List (ℕ × Call) → ℕ
chunks_of_all [] = 0
chunks_of_all ((secret, c) ∷ rest) = chunks_of c + chunks_of_all rest

abbrev pub ManagerModels : LookupDataManager → Maps → Type 0
ManagerModels m (current, next) = Models m.current current × Models m.data_builder.table next

default-Models : Models default_htbl no_keys
default-Models = Models.no_table refl refl (λ k. refl)

-- A call
call-Models :
    (secret : ℕ) (c : Call) (m : LookupDataManager) (s : Maps)
    → 0 < secret
    → SmallCall c
    → m.data_builder.table.used_data + chunks_of c * 2 ^ 22 ≤ 2 ^ 40
    → ManagerModels m s
    → (m' : LookupDataManager) × (call secret c m ≡ ok m')
      × ManagerModels m' (call_maps c s)
      × (m'.data_builder.table.used_data ≤ m.data_builder.table.used_data + chunks_of c * 2 ^ 22)
unfolding call
call-Models secret (reserve n) m (current, next) random small room (now, later) =
    let (t, run, models, grown) = reserve-Models secret n m.data_builder.table next random later in
    (
      record m { data_builder = record m.data_builder { table = t } },
      rw run refl,
      (now, models),
      omega (arith, grown),
    )
call-Models secret (insert k v) m (current, next) random small room (now, later) =
    let (t, run, models, grown) =
      insert-Models secret k v m.data_builder.table next random small (omega (arith, room)) later in
    (
      record m { data_builder = record { table = t; state = BuilderState.extending } },
      rw run refl,
      (now, models),
      omega (arith, grown),
    )
call-Models secret (extend l) m (current, next) random small room (now, later) =
    let (t, run, models, grown) =
      extend-Models secret l m.data_builder.table next random small room later in
    (
      record m { data_builder = record { table = t; state = BuilderState.extending } },
      rw run refl,
      (now, models),
      grown,
    )
call-Models secret finish m (current, next) random small room (now, later) =
    (_, refl, (later, default-Models), omega arith)
call-Models secret abort m (current, next) random small room (now, later) =
    (_, refl, (now, default-Models), omega arith)

calls-ManagerModels :
    (list : List (ℕ × Call)) (m : LookupDataManager) (s : Maps)
    → GoodCalls list
    → m.data_builder.table.used_data + chunks_of_all list * 2 ^ 22 ≤ 2 ^ 40
    → ManagerModels m s
    → (m' : LookupDataManager) × (calls list m ≡ ok m') × ManagerModels m' (calls_maps list s)
unfolding calls
calls-ManagerModels [] m s good room models = (m, refl, models)
calls-ManagerModels ((secret, c) ∷ rest) m s (random, small, good) room models =
    let (m1, run, models1, grown) =
      call-Models secret c m s random small (omega (arith, room)) models in
    let (m2, run', models2) =
      calls-ManagerModels rest m1 (call_maps c s) good (omega (arith, room, grown)) models1 in
    (m2, rw run run', models2)

pub calls-Models :
    (list : List (ℕ × Call)) (m : LookupDataManager) (s : Maps)
    → GoodCalls list
    → m.data_builder.table.used_data + chunks_of_all list * 2 ^ 22 ≤ 2 ^ 40
    → ManagerModels m s
    → (m' : LookupDataManager) × (calls list m ≡ ok m')
      × ManagerModels m' (calls_maps list s)
      × ((k : List ℕ) → lookup_data_get (create_lookup_data m') k ≡ ok ((calls_maps list s).0 k))
unfolding create_lookup_data lookup_data_get
calls-Models list m s good room models =
    let (m', run, after) = calls-ManagerModels list m s good room models in
    (m', run, after, λ k. (get-Models m'.current (calls_maps list s).0 k after.0).0)
