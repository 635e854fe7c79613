-- ===== src/Lookup/Tests.antt =====
-- The hash table and its manager on small inputs, as in the tests of lookup_htbl.rs and lookup.rs,
-- and their results applied.
use not_an_oak_fork.Base.{
  ℕ, ◌^◌, ◌≤◌, ◌≡◌, refl, true, some, none, List, [], ◌∷◌, codes, length, length-replicate,
  replicate, arith, bytes_eq,
}
use not_an_oak_fork.Lookup.Run.{ok, panic, ◌>>=◌}
use not_an_oak_fork.Lookup.Htbl.{LookupHtbl, default_htbl, get, contains_key}
use not_an_oak_fork.Lookup.Insert.{insert, extend, next}
use not_an_oak_fork.Lookup.Models.{no_keys, update, Models, get-Models}
use not_an_oak_fork.Lookup.Refines.{updates, insert-Models}
use not_an_oak_fork.Lookup.Manager.{
  Call, LookupDataManager, new_empty, create_lookup_data, lookup_data_get, calls,
}
use not_an_oak_fork.Lookup.ManagerLaws.{calls_maps, ManagerModels, calls-Models}
use not_an_oak_fork.Lookup.TooLarge.{insert_panics}

abbrev key : List ℕ
key = codes "key"

-- as in `test_dumplicate_key`
duplicate_key :
    (insert 7 key (codes "value1") default_htbl >>= λ r.
    insert 7 key (codes "value2") r.1 >>= λ s. get s.1 key)
    ≡ ok (some (codes "value2"))
unfolding insert get bytes_eq
duplicate_key = refl

-- five keys, so that the table grows three times
abbrev five_pairs : List (List ℕ × List ℕ)
five_pairs =
    (codes "a", codes "1")
    ∷ (codes "b", codes "2")
    ∷ (codes "c", codes "3")
    ∷ (codes "d", codes "4")
    ∷ (codes "e", codes "5")
    ∷ []

grows : (extend 7 five_pairs default_htbl >>= λ t. get t (codes "d")) ≡ ok (some (codes "4"))
unfolding extend get bytes_eq
grows = refl

iterates :
    (insert 7 key (codes "value") default_htbl >>= λ r. next 2 r.1 0 >>= λ p. ok p.0)
    ≡ ok (some (key, codes "value"))
unfolding insert next bytes_eq
iterates = refl

no_keys-Models : Models default_htbl no_keys
no_keys-Models = Models.no_table refl refl (λ k. refl)

insert-Models_example :
    (u : LookupHtbl) × (insert 7 key (codes "value") default_htbl ≡ ok (none, u))
    × Models u (update no_keys key (codes "value"))
    × (u.used_data ≤ 2 ^ 22)
insert-Models_example =
    insert-Models 7 key (codes "value") default_htbl no_keys (omega arith) (omega arith)
      (omega arith) no_keys-Models

abbrev one_pair : LookupHtbl
one_pair = insert-Models_example.0

get-Models_example :
    (get one_pair key ≡ ok (some (codes "value"))) × (contains_key one_pair key ≡ ok true)
unfolding bytes_eq
get-Models_example =
    get-Models one_pair (update no_keys key (codes "value")) key insert-Models_example.2

-- The data is replaced; a new version is begun and given up.
abbrev some_calls : List (ℕ × Call)
some_calls =
    (7, Call.reserve 2)
    ∷ (7, Call.extend five_pairs)
    ∷ (7, Call.finish)
    ∷ (9, Call.insert (codes "a") (codes "6"))
    ∷ (9, Call.abort)
    ∷ []

calls-Models_example :
    (m : LookupDataManager) × (calls some_calls new_empty ≡ ok m)
    × ManagerModels m (calls_maps some_calls (no_keys, no_keys))
    × ((k : List ℕ) → lookup_data_get (create_lookup_data m) k ≡ ok (updates no_keys five_pairs k))
calls-Models_example =
    calls-Models some_calls new_empty (no_keys, no_keys) (omega arith) (omega arith)
      (no_keys-Models, no_keys-Models)

-- a key of so many zeros
unfoldable zeros : ℕ → List ℕ
zeros n = replicate n 0

length-zeros : (n : ℕ) → length (zeros n) ≡ n
unfolding zeros
length-zeros n = length-replicate n 0

insert_panics_example : insert 7 (zeros 2097141) [] default_htbl ≡ panic
insert_panics_example =
    insert_panics 7 (zeros 2097141) [] (omega arith) (omega (arith, length-zeros 2097141))
