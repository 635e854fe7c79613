-- ===== src/Lookup/RoomLaws.antt =====
-- The chunk that `new_data` writes to: there is one, and the pair fits in what is left of it.
use native.Mathlib.Nat.{div-eq_of_lt-le, div-add-mod', mod-lt, mul-le-mul_right}
use not_an_oak_fork.Base.{
  ℕ, suc, ◌+◌, ◌*◌, ◌/◌, ◌%◌, ◌≤◌, ◌<◌, ◌≡◌, refl, sym, ap, ◌∙◌, inl, inr, false, Bool-cases, leb,
  ◌==◌, ==_iff, List, [], ◌∷◌, ◌++◌, length, arith, le→leb, leb→le, lt→leb_false, leb_false→lt,
  length-append,
}
use not_an_oak_fork.Lookup.Chunk.{zeroed}
use not_an_oak_fork.Lookup.Htbl.{LookupHtbl, element}
use not_an_oak_fork.Lookup.Insert.{with_chunk}
use not_an_oak_fork.Lookup.HeapLaws.{HeapValid, Stored}
use not_an_oak_fork.Lookup.ElementLaws.{element-append, element-append_last, element-append_inv}

-- Of two quotients by `s`, the larger number has the larger one,
pub quotient-le : (a c s : ℕ) → 0 < s → a ≤ c → a / s ≤ c / s
quotient-le a c s p h = elim (Bool-cases (leb (a / s) (c / s))) [
  | inl y ↦ leb→le (a / s) (c / s) y
  | inr n ↦
      let m = mul-le-mul_right s (leb_false→lt (a / s) (c / s) n) in
      absurd (omega (arith, m, div-add-mod' a s, div-add-mod' c s, mod-lt c p))
]

-- and one that is by at most `s` larger has the next one at most.
pub quotient-le_suc : (a x s : ℕ) → 0 < s → x ≤ s → (a + x) / s ≤ suc (a / s)
quotient-le_suc a x s p h = elim (Bool-cases (leb ((a + x) / s) (suc (a / s)))) [
  | inl y ↦ leb→le ((a + x) / s) (suc (a / s)) y
  | inr n ↦
      let m = mul-le-mul_right s (leb_false→lt ((a + x) / s) (suc (a / s)) n) in
      absurd (omega (arith, m, div-add-mod' a s, div-add-mod' (a + x) s, mod-lt a p))
]

-- a number behind its quotient's multiple by less
pub remainder-lt : (a x s q : ℕ) → 0 < s → a / s ≡ q → (a + x) / s ≡ q → a % s + x < s
remainder-lt a x s q p e f =
    let g = ap (λ (y : ℕ). y * s) e in
    let h = ap (λ (y : ℕ). y * s) f in
    omega (arith, g, h, div-add-mod' a s, div-add-mod' (a + x) s, mod-lt (a + x) p)

multiple-div : (s q : ℕ) → 0 < s → s * q / s ≡ q
multiple-div s q p = div-eq_of_lt-le s (omega arith) (omega arith)

multiple-mod : (s q : ℕ) → 0 < s → s * q % s ≡ 0
multiple-mod s q p =
    let g = ap (λ (y : ℕ). y * s) (multiple-div s q p) in omega (arith, g, div-add-mod' (s * q) s)

-- What the other components see of a table does not change.
pub record SameEntries (t u : LookupHtbl) : Type 0 where
  pub table : u.table ≡ t.table
  pub max_entries : u.max_entries ≡ t.max_entries
  pub used_entries : u.used_entries ≡ t.used_entries
  pub hash_secret : u.hash_secret ≡ t.hash_secret
  pub chunk_size : u.chunk_size ≡ t.chunk_size

-- The table `u` has a last chunk, of index `q`, with room for `add` bytes.
pub record Room (t : LookupHtbl) (q add : ℕ) (u : LookupHtbl) : Type 0 where
  pub valid : HeapValid u
  pub last : length u.data_chunks ≡ suc q
  pub quotient : u.used_data / u.chunk_size ≡ q
  pub fits : u.used_data % u.chunk_size + add ≤ u.chunk_size
  pub near : u.used_data ≤ t.used_data + add
  pub same : SameEntries t u
  pub keeps : (d : ℕ) (k v : List ℕ) → Stored t d k v → Stored u d k v

module _ (t : LookupHtbl) (valid : HeapValid t) (add : ℕ) (small : suc add < t.chunk_size) where
  pushed : ℕ → ℕ → LookupHtbl
  pushed used q = record t {
    data_chunks = t.data_chunks ++ zeroed t.chunk_size ∷ [];
    used_data = used;
  }

  pushed-Room :
      (q used : ℕ)
      → length t.data_chunks ≡ q
      → used / t.chunk_size ≡ q
      → used % t.chunk_size + add ≤ t.chunk_size
      → t.used_data ≤ used
      → used ≤ t.used_data + add
      → Room t q add (pushed used q)
  unfolding pushed
  pushed-Room q used e f g p n =
      let long : length (t.data_chunks ++ zeroed t.chunk_size ∷ []) ≡ suc q =
        omega (arith, length-append t.data_chunks (zeroed t.chunk_size ∷ []), e) in
      record {
        valid = record {
          size = valid.size;
          mask = valid.mask;
          large = valid.large;
          sizes = λ i c there. elim (Bool-cases (i == length t.data_chunks)) [
            | inl y ↦
                let x = element-append_last t.data_chunks (zeroed t.chunk_size) in
                let z =
                  ap (element (t.data_chunks ++ zeroed t.chunk_size ∷ []))
                    ((==_iff i (length t.data_chunks)).0 y) in
                let w : zeroed t.chunk_size ≡ c = (let r = sym x ∙ sym z ∙ there in cc) in
                sym (ap (λ c. c.size) w)
            | inr y ↦
                valid.sizes i c
                  (element-append_inv t.data_chunks (zeroed t.chunk_size) i there (ground arith))
          ];
          null_unused = omega (arith, valid.null_unused);
          chunks = inr (long ∙ ap suc (sym f));
        };
        last = long;
        quotient = f;
        fits = g;
        near = n;
        same = record {
          table = refl;
          max_entries = refl;
          used_entries = refl;
          hash_secret = refl;
          chunk_size = refl;
        };
        keeps = λ d k v s. record {
          chunk_index = s.chunk_index;
          index = s.index;
          width = s.width;
          chunk = s.chunk;
          splits = s.splits;
          positive = s.positive;
          not_empty = s.not_empty;
          inside = s.inside;
          used = omega (arith, s.used);
          there = element-append t.data_chunks (zeroed t.chunk_size ∷ []) s.chunk_index s.there;
          reads = s.reads;
        };
      }

  with_first :
      (q : ℕ)
      → length t.data_chunks ≡ 0
      → t.used_data ≡ 1
      → (t.used_data + add) / t.chunk_size ≡ q
      → Room t q add (with_chunk q t)
  unfolding with_chunk pushed
  with_first q e f z =
      let zero_q : q ≡ 0 =
        sym z ∙ div-eq_of_lt-le t.chunk_size (omega arith) (omega (arith, f, small)) in
      let unit : 1 / t.chunk_size ≡ 0 =
        div-eq_of_lt-le t.chunk_size (omega arith) (omega (arith, small)) in
      let rest : 1 % t.chunk_size ≡ 1 =
        omega (arith, ap (λ (y : ℕ). y * t.chunk_size) unit, div-add-mod' 1 t.chunk_size) in
      rw (le→leb (length t.data_chunks) q (omega (arith, e)), (==_iff q 0).1 zero_q)
        (pushed-Room q 1 (e ∙ sym zero_q) (unit ∙ sym zero_q) (omega (arith, rest, small))
          (omega (arith, f)) (omega (arith, f)))

  with_next :
      (q : ℕ)
      → length t.data_chunks ≡ suc (t.used_data / t.chunk_size)
      → (t.used_data + add) / t.chunk_size ≡ q
      → length t.data_chunks ≤ q
      → Room t q add (with_chunk q t)
  unfolding with_chunk pushed
  with_next q e z h =
      let s = t.chunk_size in
      let p : 0 < s = omega (arith, small) in
      let top = quotient-le_suc t.used_data add s p (omega (arith, small)) in
      let same : length t.data_chunks ≡ q = omega (arith, e, z, top) in
      let not_zero : (q == 0) ≡ false = ground (arith, e) in
      let m = multiple-mod s q p in
      let low = div-add-mod' t.used_data s in
      let high = div-add-mod' (t.used_data + add) s in
      let g = ap (λ (y : ℕ). y * s) z in
      let k : suc (t.used_data / s) * s ≡ q * s = ap (λ (y : ℕ). y * s) (sym e ∙ same) in
      rw (le→leb (length t.data_chunks) q h, not_zero)
        (pushed-Room q (s * q) same (multiple-div s q p) (omega (arith, m, small))
          (omega (arith, k, low, mod-lt t.used_data p)) (omega (arith, g, high)))

  with_last :
      (q : ℕ)
      → length t.data_chunks ≡ suc (t.used_data / t.chunk_size)
      → (t.used_data + add) / t.chunk_size ≡ q
      → q < length t.data_chunks
      → Room t q add (with_chunk q t)
  unfolding with_chunk
  with_last q e z h =
      let s = t.chunk_size in
      let p : 0 < s = omega (arith, small) in
      let bottom = quotient-le t.used_data (t.used_data + add) s p (omega arith) in
      let same : t.used_data / s ≡ q = omega (arith, e, z, bottom) in
      rw (lt→leb_false (length t.data_chunks) q h) record {
        valid = valid;
        last = e ∙ ap suc same;
        quotient = same;
        fits = omega (arith, remainder-lt t.used_data add s q p same z);
        near = omega arith;
        same = record {
          table = refl;
          max_entries = refl;
          used_entries = refl;
          hash_secret = refl;
          chunk_size = refl;
        };
        keeps = λ d k v x. x;
      }

  pub with_chunk-Room :
      (q : ℕ) → (t.used_data + add) / t.chunk_size ≡ q → Room t q add (with_chunk q t)
  with_chunk-Room q z = elim valid.chunks [
    | inl (e, f) ↦ with_first q e f z
    | inr e ↦ elim (Bool-cases (leb (length t.data_chunks) q)) [
      | inl y ↦ with_next q e z (leb→le (length t.data_chunks) q y)
      | inr n ↦ with_last q e z (leb_false→lt (length t.data_chunks) q n)
    ]
  ]
