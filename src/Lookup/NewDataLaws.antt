-- ===== src/Lookup/NewDataLaws.antt =====
-- `new_data` of oak_functions_service/src/lookup_htbl.rs stores its pair, and keeps the others.
use native.Mathlib.Nat.{div-eq_of_lt-le, div-add-mod'}
use not_an_oak_fork.Base.{
  ℕ, suc, ◌+◌, ◌-◌, ◌*◌, ◌/◌, ◌%◌, ◌^◌, ◌≤◌, ◌<◌, ◌≡◌, refl, sym, ap, ◌∙◌, inl, inr, Bool-cases,
  ◌==◌, ==_iff, List, length, set, arith, lt→ltb, length-set,
}
use not_an_oak_fork.Lookup.Run.{ok}
use not_an_oak_fork.Lookup.Chunk.{Chunk}
use not_an_oak_fork.Lookup.Htbl.{LookupHtbl, element, index_in_chunk}
use not_an_oak_fork.Lookup.Insert.{with_chunk, store_pair, new_data}
use not_an_oak_fork.Lookup.PairLaws.{PairWritten, write_pair-PairWritten}
use not_an_oak_fork.Lookup.HeapLaws.{HeapValid, Stored}
use not_an_oak_fork.Lookup.RoomLaws.{Room, SameEntries, with_chunk-Room}
use not_an_oak_fork.Lookup.ElementLaws.{element-of_lt, element-set_self, element-set_ne}

-- The table `u` has this pair besides those of `t`, at data index `d`.
pub record Adds (t : LookupHtbl) (key value : List ℕ) (d : ℕ) (u : LookupHtbl) : Type 0 where
  pub valid : HeapValid u
  pub stored : Stored u d key value
  pub near : d ≤ t.used_data + (10 + length key + length value)
  pub grown : u.used_data ≤ t.used_data + 2 * (10 + length key + length value)
  pub same : SameEntries t u
  pub keeps : (e : ℕ) (k v : List ℕ) → Stored t e k v → Stored u e k v

module _ (t u : LookupHtbl) (key value : List ℕ) (q : ℕ)
    (room : Room t q (10 + length key + length value) u) where
  module _ (c c' : Chunk) (end : ℕ) (there : element u.data_chunks q ≡ ok c)
      (w : PairWritten c (u.used_data % u.chunk_size) key value c' end) where
    after : LookupHtbl
    after = record u {
      data_chunks = set u.data_chunks q c';
      used_data = u.used_data + (end - u.used_data % u.chunk_size);
    }

    pos : 0 < u.chunk_size
    pos = omega (arith, room.valid.large)

    base : q * u.chunk_size + u.used_data % u.chunk_size ≡ u.used_data
    base =
        ap (λ (x : ℕ). x * u.chunk_size + u.used_data % u.chunk_size) (sym room.quotient)
        ∙ div-add-mod' u.used_data u.chunk_size

    there' : element (set u.data_chunks q c') q ≡ ok c'
    there' = element-set_self u.data_chunks q c' (omega (arith, room.last))

    after-HeapValid : HeapValid after
    unfolding after
    after-HeapValid = record {
      size = room.valid.size;
      mask = room.valid.mask;
      large = room.valid.large;
      sizes = λ i x e. elim (Bool-cases (q == i)) [
        | inl y ↦
            let z : c' ≡ x =
              (let r = sym there' ∙ ap (element (set u.data_chunks q c')) ((==_iff q i).0 y) ∙ e in
                cc) in
            sym (ap (λ c. c.size) z) ∙ w.size ∙ room.valid.sizes q c there
        | inr n ↦
            room.valid.sizes i x (sym (element-set_ne u.data_chunks q i c' (ground arith)) ∙ e)
      ];
      null_unused = omega (arith, room.valid.null_unused);
      chunks = inr (
          length-set u.data_chunks q c'
          ∙ room.last
          ∙ ap suc (
              sym (
                div-eq_of_lt-le u.chunk_size (omega (arith, base))
                  (omega (arith, base, w.short, w.forward, room.fits)))));
    }

    after-Stored : Stored after u.used_data key value
    unfolding after
    after-Stored = record {
      chunk_index = q;
      index = u.used_data % u.chunk_size;
      width = end - u.used_data % u.chunk_size;
      chunk = c';
      splits = sym base;
      positive = room.valid.null_unused;
      not_empty = omega (arith, w.forward);
      inside = omega (arith, w.short, w.forward, room.fits);
      used = omega arith;
      there = there';
      reads = λ d h same. w.reads d (omega (arith, w.forward)) (λ j a b. same j a (omega arith));
    }

    after-keeps : (e : ℕ) (k v : List ℕ) → Stored u e k v → Stored after e k v
    unfolding after
    after-keeps e k v x = elim (Bool-cases (q == x.chunk_index)) [
      | inl y ↦
          let z = (==_iff q x.chunk_index).0 y in
          let g = ap (λ (m : ℕ). m * u.chunk_size) z in
          let cx : x.chunk ≡ c =
            (let r = sym x.there ∙ ap (element u.data_chunks) (sym z) ∙ there in cc) in
          record {
            chunk_index = x.chunk_index;
            index = x.index;
            width = x.width;
            chunk = c';
            splits = x.splits;
            positive = x.positive;
            not_empty = x.not_empty;
            inside = x.inside;
            used = omega (arith, x.used);
            there = ap (element (set u.data_chunks q c')) (sym z) ∙ there';
            reads = λ d h same. x.reads d h (λ j a b.
                same j a b
                ∙ w.below j (omega (arith, g, base, x.splits, x.used))
                ∙ sym (ap (λ (c : Chunk). c.byte j) cx));
          }
      | inr n ↦ record {
        chunk_index = x.chunk_index;
        index = x.index;
        width = x.width;
        chunk = x.chunk;
        splits = x.splits;
        positive = x.positive;
        not_empty = x.not_empty;
        inside = x.inside;
        used = omega (arith, x.used);
        there = element-set_ne u.data_chunks q x.chunk_index c' (ground arith) ∙ x.there;
        reads = x.reads;
      }
    ]

  store_pair-Adds :
      length key < 2 ^ 30
      → length value < 2 ^ 30
      → (d : ℕ) × (r : LookupHtbl) × (store_pair q key value u ≡ ok (d, r)) × Adds t key value d r
  unfolding store_pair index_in_chunk after
  store_pair-Adds p l =
      let (c, there) = element-of_lt u.data_chunks q (omega (arith, room.last)) in
      let sized = room.valid.sizes q c there in
      let (c', end, e, w) =
        write_pair-PairWritten c (u.used_data % u.chunk_size) key value p l
          (omega (arith, sized, room.fits)) in
      let mask : u.used_data % (u.chunk_mask + 1) ≡ u.used_data % u.chunk_size =
        ap (λ (x : ℕ). u.used_data % x) room.valid.mask in
      (
        u.used_data,
        after c c' end there w,
        rw (there, mask, e) refl,
        record {
          valid = after-HeapValid c c' end there w;
          stored = after-Stored c c' end there w;
          near = room.near;
          grown = omega (arith, room.near, w.short);
          same = record {
            table = room.same.table;
            max_entries = room.same.max_entries;
            used_entries = room.same.used_entries;
            hash_secret = room.same.hash_secret;
            chunk_size = room.same.chunk_size;
          };
          keeps = λ e k v x. after-keeps c c' end there w e k v (room.keeps e k v x);
        },
      )

-- `new_data` stores a pair behind all others, which stay what they are.
pub new_data-Adds :
    (t : LookupHtbl) (key value : List ℕ)
    → HeapValid t
    → 11 + length key + length value < 2 ^ 21
    → (d : ℕ) × (r : LookupHtbl) × (new_data key value t ≡ ok (d, r)) × Adds t key value d r
unfolding new_data
new_data-Adds t key value valid small =
    let add = 10 + length key + length value in
    let q = (t.used_data + add) / t.chunk_size in
    let room = with_chunk-Room t valid add (omega (arith, valid.large)) q refl in
    let (d, r, e, adds) =
      store_pair-Adds t (with_chunk q t) key value q room (omega arith) (omega arith) in
    let bits : (t.used_data + add) / 2 ^ t.chunk_bits ≡ q =
      ap (λ (x : ℕ). (t.used_data + add) / x) (sym valid.size) in
    (d, r, rw (lt→ltb add t.chunk_size (omega (arith, valid.large)), bits) e, adds)
