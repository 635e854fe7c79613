-- ===== src/Lookup/TooLarge.antt =====
-- A pair that fills a chunk up to its last byte, as the first of a table.
use native.Mathlib.Nat.{div-eq_of_lt-le}
use not_an_oak_fork.Base.{
  ℕ, ◌+◌, ◌/◌, ◌^◌, ◌<◌, ◌≡◌, refl, ap, true, leb, List, [], length, arith, lt→ltb,
}
use not_an_oak_fork.Lookup.Run.{panic}
use not_an_oak_fork.Lookup.Htbl.{
  LookupHtbl, default_htbl, element, next_power_of_two, power_from, ilog2, log_from,
}
use not_an_oak_fork.Lookup.Insert.{new_data, with_chunk, store_pair, make_room, insert}
use not_an_oak_fork.Lookup.ReserveLaws.{reserved, reserve-reserved}

one_chunk-panics :
    (t : LookupHtbl) (key value : List ℕ)
    → t.data_chunks ≡ []
    → t.used_data ≡ 1
    → 2 ^ t.chunk_bits ≡ t.chunk_size
    → 11 + length key + length value ≡ t.chunk_size
    → new_data key value t ≡ panic
unfolding new_data with_chunk store_pair element
one_chunk-panics t key value no_chunks used bits full =
    let add = 10 + length key + length value in
    let next : (t.used_data + add) / 2 ^ t.chunk_bits ≡ 1 =
      div-eq_of_lt-le (2 ^ t.chunk_bits) (omega (arith, bits, used, full))
        (omega (arith, bits, used, full)) in
    let none_yet : leb (length t.data_chunks) 1 ≡ true =
      (let z = ap length no_chunks in ground (arith, z)) in
    rw (lt→ltb add t.chunk_size (omega (arith, full)), next, none_yet, no_chunks) refl

-- With a nonzero secret, inserting a key and a value whose lengths are together exactly 2^21 -
-- 11 into a new table panics.
pub insert_panics :
    (secret : ℕ) (key value : List ℕ)
    → 0 < secret
    → 11 + length key + length value ≡ 2 ^ 21
    → insert secret key value default_htbl ≡ panic
unfolding insert make_room next_power_of_two power_from ilog2 log_from
insert_panics secret key value random full =
    let made = reserve-reserved secret 1 default_htbl refl random in
    let panics = one_chunk-panics (reserved secret 1) key value refl refl refl full in
    rw (made, panics) refl
