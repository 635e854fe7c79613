-- ===== src/Lookup/ReserveLaws.antt =====
-- `reserve` of oak_functions_service/src/lookup_htbl.rs makes a table of empty entries.
use native.Mathlib.Nat.{two-pow-succ, pow-le-pow_right, one-le-pow}
use not_an_oak_fork.Base.{
  ℕ, zero, suc, ◌+◌, ◌-◌, ◌*◌, ◌/◌, ◌^◌, ◌≤◌, ◌<◌, ◌≡◌, refl, sym, ap, ◌∙◌, inl, inr, false,
  Bool-cases, if◌then◌else◌, ltb, leb, ◌==◌, ==_iff, none, [], length, replicate, length-replicate,
  arith, lt→ltb, le→ltb_false, ltb_false→le,
}
use not_an_oak_fork.Lookup.Run.{ok}
use not_an_oak_fork.Lookup.Htbl.{
  default_entry, LookupHtbl, read_index, power_from, next_power_of_two, log_from, ilog2, reserve,
}
use not_an_oak_fork.Lookup.Slots.{Slots}
use not_an_oak_fork.Lookup.View.{count}
use not_an_oak_fork.Lookup.ElementLaws.{lt_of_element, element-replicate}
use not_an_oak_fork.Lookup.TableLaws.{Represents}

power_from-le : (rounds k n : ℕ) → power_from rounds k n ≤ k + rounds
unfolding power_from
power_from-le zero k n = omega arith
power_from-le (suc rounds) k n = elim (Bool-cases (leb n (2 ^ k))) [
  | inl y ↦ rw y (omega arith)
  | inr z ↦ rw z (omega (arith, power_from-le rounds (suc k) n))
]

log_from-pow : (rounds k e : ℕ) → k ≤ e → e ≤ k + rounds → log_from rounds k (2 ^ e) ≡ e
unfolding log_from
log_from-pow zero k e h g = omega arith
log_from-pow (suc rounds) k e h g = elim (Bool-cases (e == k)) [
  | inl y ↦
      let p = (==_iff e k).0 y in
      rw
        (
          p,
          lt→ltb (2 ^ k) (2 ^ suc k) (omega (arith, two-pow-succ k, one-le-pow k 2 (omega arith))),
        )
        refl
  | inr z ↦
      rw (le→ltb_false (2 ^ e) (2 ^ suc k) (pow-le-pow_right (omega arith) (ground arith)))
        (log_from-pow rounds (suc k) e (ground arith) (omega arith))
]

abbrev pub no_slots : Slots
no_slots i = none

pub count-no_slots : (n : ℕ) → count n no_slots ≡ 0
unfolding count
count-no_slots zero = refl
count-no_slots (suc n) = omega (arith, count-no_slots n)

-- the size of chunks for so many entries, a power of 2
abbrev pub chunk_size_for : ℕ → ℕ
chunk_size_for n = let p = next_power_of_two n in if ltb p (2 ^ 21) then 2 ^ 21 else p

chunk_size_for_lem :
    (n : ℕ) → (2 ^ 21 ≤ chunk_size_for n) × (chunk_size_for n ≡ 2 ^ ilog2 (chunk_size_for n))
unfolding next_power_of_two ilog2
chunk_size_for_lem n = elim (Bool-cases (ltb (next_power_of_two n) (2 ^ 21))) [
  | inl y ↦
      rw y (
        omega arith,
        sym (ap (λ (k : ℕ). 2 ^ k) (log_from-pow 64 0 21 (omega arith) (omega arith))),
      )
  | inr z ↦ rw z (
    ltb_false→le (next_power_of_two n) (2 ^ 21) z,
    sym (
        ap (λ (k : ℕ). 2 ^ k)
          (log_from-pow 64 0 (power_from 64 0 n) (omega arith) (power_from-le 64 0 n))),
  )
]

-- the table that `reserve` makes
abbrev pub reserved : ℕ → ℕ → LookupHtbl
reserved secret m =
    let n = (5 * m + 1) / 3 in
    record {
      table = replicate n default_entry;
      data_chunks = [];
      max_entries = m;
      used_data = 1;
      used_entries = 0;
      hash_secret = secret;
      chunk_bits = ilog2 (chunk_size_for n);
      chunk_size = chunk_size_for n;
      chunk_mask = chunk_size_for n - 1;
    }

pub reserve-reserved :
    (secret m : ℕ) (t : LookupHtbl)
    → t.used_entries ≡ 0
    → 0 < secret
    → reserve secret m t ≡ ok (reserved secret m)
unfolding reserve
reserve-reserved secret m t empty random =
    let positive : (secret == 0) ≡ false = ground arith in
    rw ((==_iff t.used_entries 0).1 empty, positive) refl

-- An empty table for one entry or more
pub reserve-Represents :
    (secret m : ℕ) (t : LookupHtbl)
    → t.used_entries ≡ 0
    → 0 < secret
    → 0 < m
    → (r : LookupHtbl) × (reserve secret m t ≡ ok r) × Represents r no_slots × (r.used_data ≡ 1)
unfolding reserve read_index
reserve-Represents secret m t empty random some_entry =
    let n = (5 * m + 1) / 3 in
    let (large, power) = chunk_size_for_lem n in
    let new_table = replicate n default_entry in
    let r = reserved secret m in
    (
      r,
      reserve-reserved secret m t empty random,
      record {
        heap = record {
          size = power;
          mask = omega (arith, large);
          large = large;
          sizes = λ q c e. absurd (let h = lt_of_element [] q c e in omega arith);
          null_unused = omega arith;
          chunks = inl (refl, refl);
        };
        holds = λ i e there.
            let h = lt_of_element new_table i e there in
            let same : default_entry ≡ e =
              (let x =
                  sym (
                    element-replicate n i default_entry
                      (omega (arith, length-replicate n default_entry, h)))
                  ∙ there in
                cc) in
            rw (← same) (refl, refl);
        placed = λ j k v h e. cc;
        counted = count-no_slots (length new_table);
        load = omega arith;
        spare = omega (arith, length-replicate n default_entry);
        some_entry = some_entry;
      },
      refl,
    )
