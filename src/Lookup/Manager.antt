-- ===== src/Lookup/Manager.antt =====
-- oak_functions_service/src/lookup.rs: the data that is looked up, and the data that is built to
-- replace it. Each operation holds its locks from beginning to end, so operations come one after
-- the other; the logger is left out. `secret` is what `OsRng` gives to an operation.
use not_an_oak_fork.Base.{ℕ, Bool, Option, List, [], ◌∷◌, length, take, min}
use not_an_oak_fork.Lookup.Run.{Run, ok, ◌>>=◌}
use not_an_oak_fork.Lookup.Htbl.{LookupHtbl, default_htbl, get}
use not_an_oak_fork.Lookup.Htbl
use not_an_oak_fork.Lookup.Insert.{len, is_empty}
use not_an_oak_fork.Lookup.Insert

pub data BuilderState : Type 0 where
  empty : BuilderState
  extending : BuilderState

pub record DataBuilder : Type 0 where
  pub table : LookupHtbl
  pub state : BuilderState

abbrev pub default_builder : DataBuilder
default_builder = record { table = default_htbl; state = BuilderState.empty }

unfoldable pub build : DataBuilder → LookupHtbl × DataBuilder
build b = (b.table, record { table = default_htbl; state = BuilderState.empty })

unfoldable pub builder_extend : ℕ → List (List ℕ × List ℕ) → DataBuilder → Run DataBuilder
builder_extend secret new_data b = do
  table ← Insert.extend secret new_data b.table
  ok (record { table = table; state = BuilderState.extending })

unfoldable pub builder_insert : ℕ → List ℕ → List ℕ → DataBuilder → Run DataBuilder
builder_insert secret key val b = do
  (_, table) ← Insert.insert secret key val b.table
  ok (record { table = table; state = BuilderState.extending })

unfoldable pub builder_reserve : ℕ → ℕ → DataBuilder → Run DataBuilder
builder_reserve secret additional_entries b = do
  table ← Htbl.reserve secret additional_entries b.table
  ok (record b { table = table })

pub record LookupDataManager : Type 0 where
  pub current : LookupHtbl
  pub data_builder : DataBuilder

abbrev pub new_empty : LookupDataManager
new_empty = record { current = default_htbl; data_builder = default_builder }

unfoldable pub manager_reserve : ℕ → ℕ → LookupDataManager → Run LookupDataManager
unfolding builder_reserve
manager_reserve secret additional_entries m = do
  b ← builder_reserve secret additional_entries m.data_builder
  ok (record m { data_builder = b })

unfoldable pub manager_insert : ℕ → List ℕ → List ℕ → LookupDataManager → Run LookupDataManager
unfolding builder_insert
manager_insert secret key val m = do
  b ← builder_insert secret key val m.data_builder
  ok (record m { data_builder = b })

unfoldable pub extend_next_lookup_data :
    ℕ → List (List ℕ × List ℕ) → LookupDataManager → Run LookupDataManager
unfolding builder_extend
extend_next_lookup_data secret new_data m = do
  b ← builder_extend secret new_data m.data_builder
  ok (record m { data_builder = b })

unfoldable pub finish_next_lookup_data : LookupDataManager → LookupDataManager
unfolding build
finish_next_lookup_data m =
    let (next_data, b) = build m.data_builder in record { current = next_data; data_builder = b }

unfoldable pub abort_next_lookup_data : LookupDataManager → LookupDataManager
unfolding build
abort_next_lookup_data m = let (_, b) = build m.data_builder in record m { data_builder = b }

-- an `Arc` to the current data, which is replaced but never changed
pub record LookupData : Type 0 where
  pub table : LookupHtbl

unfoldable pub create_lookup_data : LookupDataManager → LookupData
create_lookup_data m = record { table = m.current }

unfoldable pub lookup_data_get : LookupData → List ℕ → Run (Option (List ℕ))
lookup_data_get d key = get d.table key

unfoldable pub lookup_data_len : LookupData → ℕ
unfolding len
lookup_data_len d = len d.table

unfoldable pub lookup_data_is_empty : LookupData → Bool
unfolding is_empty
lookup_data_is_empty d = is_empty d.table

unfoldable pub limit {ℓ} : {A : Type ℓ} → List A → ℕ → List A
limit slice most = take (min most (length slice)) slice

-- the calls of a manager that change it
pub data Call : Type 0 where
  reserve : ℕ → Call
  insert : List ℕ → List ℕ → Call
  extend : List (List ℕ × List ℕ) → Call
  finish : Call
  abort : Call

unfoldable pub call : ℕ → Call → LookupDataManager → Run LookupDataManager
unfolding manager_reserve manager_insert extend_next_lookup_data finish_next_lookup_data
    abort_next_lookup_data
call secret (reserve n) m = manager_reserve secret n m
call secret (insert key val) m = manager_insert secret key val m
call secret (extend new_data) m = extend_next_lookup_data secret new_data m
call secret finish m = ok (finish_next_lookup_data m)
call secret abort m = ok (abort_next_lookup_data m)

-- calls one after the other, each with what `OsRng` gives to it
unfoldable pub calls : List (ℕ × Call) → LookupDataManager → Run LookupDataManager
unfolding call
calls [] m = ok m
calls ((secret, c) ∷ rest) m = call secret c m >>= calls rest
