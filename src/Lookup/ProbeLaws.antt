-- ===== src/Lookup/ProbeLaws.antt =====
-- The probing of the table follows the search in the slots that it holds.
use not_an_oak_fork.Base.{
  ℕ, zero, suc, ◌/◌, ◌%◌, ◌^◌, ◌<◌, ◌≡◌, refl, sym, ap, ◌∙◌, subst, inl, inr, Bool, true, false,
  ◌&&◌, not, Bool-cases, Option-cases, if◌then◌else◌, ◌==◌, ==_iff, Option, some, none, List,
  length, arith, bytes_eq, bytes_eq_iff,
}
use not_an_oak_fork.Lookup.Run.{Run, ok, endless}
use not_an_oak_fork.Lookup.Hash.{hash}
use not_an_oak_fork.Lookup.Htbl.{
  Entry, LookupHtbl, LookupResult, found, not_found, element, read_index, next_index, check_entry,
  probe,
}
use not_an_oak_fork.Lookup.Slots.{Slots, Seek, at, vacant, lost, seek, step, step-lt}
use not_an_oak_fork.Lookup.HeapLaws.{HeapValid, Stored, read_key-Stored}
use not_an_oak_fork.Lookup.ElementLaws.{element-of_lt}

abbrev pub byte_of : LookupHtbl → List ℕ → ℕ
byte_of t k = hash k t.hash_secret / 2 ^ 32 % 256

-- An entry stands for what is in a slot.
abbrev pub Matches : LookupHtbl → Option (List ℕ × List ℕ) → Entry → Type 0
Matches t none e = (e.hash_byte ≡ 0) × (read_index e ≡ 0)
Matches t (some (k, v)) e = (e.hash_byte ≡ byte_of t k) × Stored t (read_index e) k v

abbrev pub Holds : LookupHtbl → Slots → Type 0
Holds t s = (i : ℕ) (e : Entry) → element t.table i ≡ ok e → Matches t (s i) e

pub data Agrees (t : LookupHtbl) (key : List ℕ) : Seek → Run LookupResult → Type 0 where
  finds :
      (j : ℕ) (v : List ℕ) (e : Entry)
      → element t.table j ≡ ok e
      → Stored t (read_index e) key v
      → e.hash_byte ≡ byte_of t key
      → Agrees t key (at j v) (ok (found j (read_index e)))
  misses : (j : ℕ) → Agrees t key (vacant j) (ok (not_found j (byte_of t key)))
  goes_round : Agrees t key lost endless

module _ (t : LookupHtbl) (s : Slots) (valid : HeapValid t) (holds : Holds t s) (key : List ℕ) where
  -- what the inner loop and the test behind it make of an entry
  passes_by : Entry → Bool
  passes_by e = not (e.hash_byte == byte_of t key) && not (e.hash_byte == 0)

  visit_entry : ℕ → Entry → Run LookupResult → Run LookupResult
  visit_entry i e later = if passes_by e then later else check_entry t key (byte_of t key) i e later

  visit-none :
      (i : ℕ) (e : Entry) (later : Run LookupResult)
      → Matches t none e
      → visit_entry i e later ≡ ok (not_found i (byte_of t key))
  unfolding visit_entry passes_by check_entry
  visit-none i e later (h, d) = elim (Bool-cases (e.hash_byte == byte_of t key)) [
    | inl y ↦ rw (y, (==_iff (read_index e) 0).1 d) refl
    | inr n ↦ rw (n, (==_iff e.hash_byte 0).1 h, (==_iff (read_index e) 0).1 d) refl
  ]

  visit-same :
      (i : ℕ) (e : Entry) (later : Run LookupResult) (k v : List ℕ)
      → Matches t (some (k, v)) e
      → bytes_eq key k ≡ true
      → visit_entry i e later ≡ ok (found i (read_index e))
  unfolding visit_entry passes_by check_entry
  visit-same i e later k v (h, d) z =
      let same : e.hash_byte ≡ byte_of t key =
        h ∙ ap (byte_of t) (sym ((bytes_eq_iff key k).0 z)) in
      let positive : (read_index e == 0) ≡ false = (let p = d.positive in ground arith) in
      rw
        (
          (==_iff e.hash_byte (byte_of t key)).1 same,
          positive,
          (read_key-Stored t valid (read_index e) k v d).0,
          z,
        )
        refl

  visit-other :
      (i : ℕ) (e : Entry) (later : Run LookupResult) (k v : List ℕ)
      → Matches t (some (k, v)) e
      → bytes_eq key k ≡ false
      → visit_entry i e later ≡ later
  unfolding visit_entry passes_by check_entry
  visit-other i e later k v (h, d) z =
      let positive : (read_index e == 0) ≡ false = (let p = d.positive in ground arith) in
      elim (Bool-cases (e.hash_byte == byte_of t key)) [
        | inl y ↦ rw (y, positive, (read_key-Stored t valid (read_index e) k v d).0, z) refl
        | inr n ↦ elim (Bool-cases (e.hash_byte == 0)) [
          | inl y ↦ rw (n, y, positive) refl
          | inr m ↦ rw (n, m) refl
        ]
      ]

  pub probe-seek :
      (r i : ℕ)
      → i < length t.table
      → Agrees t key (seek r (length t.table) s i key) (probe r t key (byte_of t key) i)
  unfolding seek probe next_index visit_entry passes_by
  probe-seek zero i h = Agrees.goes_round
  probe-seek (suc r) i h =
      let (e, there) = element-of_lt t.table i h in
      let m = holds i e there in
      let n = length t.table in
      elim (Option-cases (s i)) [
        | inl p ↦
            rw
              (
                there,
                p,
                visit-none i e (probe r t key (byte_of t key) (next_index t i)) (rw p at m),
              )
              (Agrees.misses i)
        | inr ((k, v), p) ↦
            let m' = rw p at m in
            let later = probe r t key (byte_of t key) (next_index t i) in
            elim (Bool-cases (bytes_eq key k)) [
              | inl z ↦
                  let same = (bytes_eq_iff key k).0 z in
                  rw (there, p, z, visit-same i e later k v m' z)
                    (Agrees.finds i v e there
                      (subst (λ x. Stored t (read_index e) x v) (sym same) m'.1)
                      (m'.0 ∙ ap (byte_of t) (sym same)))
              | inr z ↦
                  rw (there, p, z, visit-other i e later k v m' z)
                    (probe-seek r (step n i) (step-lt n i h))
            ]
      ]
