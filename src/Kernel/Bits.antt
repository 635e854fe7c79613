-- ===== src/Kernel/Bits.antt =====
-- `BitArray<[u64; N], Lsb0>` of the package bitvec, which the frame allocator of
-- oak_restricted_kernel/src/mm/bitmap_frame_allocator.rs stands on: its operations, and what its
-- documentation says of them.
use not_an_oak_fork.Base.{
  ℕ, ◌≤◌, ◌<◌, ◌≡◌, ◌≢◌, Bool, true, false, ◌&&◌, not, if◌then◌else◌, ltb, leb, Option, some, none,
}

module _ (B : Type 0) where
  -- All values of the type have `len` bits. `get`, `set` and `all` are only called on bits below
  -- that.
  pub record BitArray : Type 0 where
    pub len : ℕ
    pub zero_bits : B
    pub get : ℕ → B → Bool
    pub set : ℕ → Bool → B → B
    pub fill : ℕ → ℕ → Bool → B → B
    pub bitand : B → B → B
    pub complement : B → B
    pub first_one : B → Option ℕ
    pub count_ones : B → ℕ

  pub record IsBitArray (b : BitArray) : Type 0 where
    pub get-zero_bits : (i : ℕ) → i < b.len → b.get i b.zero_bits ≡ false
    pub get-set_self : (i : ℕ) (v : Bool) (x : B) → i < b.len → b.get i (b.set i v x) ≡ v
    pub get-set_ne :
        (i j : ℕ) (v : Bool) (x : B)
        → i < b.len
        → j < b.len
        → i ≢ j
        → b.get j (b.set i v x) ≡ b.get j x
    pub get-fill :
        (i s e : ℕ) (v : Bool) (x : B)
        → i < b.len
        → e ≤ b.len
        → b.get i (b.fill s e v x) ≡ (if leb s i && ltb i e then v else b.get i x)
    pub get-bitand :
        (i : ℕ) (x y : B) → i < b.len → b.get i (b.bitand x y) ≡ (b.get i x && b.get i y)
    pub get-complement : (i : ℕ) (x : B) → i < b.len → b.get i (b.complement x) ≡ not (b.get i x)
    pub first_one-some :
        (x : B) (i : ℕ)
        → b.first_one x ≡ some i
        → (i < b.len) × (b.get i x ≡ true) × ((j : ℕ) → j < i → b.get j x ≡ false)
    pub first_one-none : (x : B) → b.first_one x ≡ none → (i : ℕ) → i < b.len → b.get i x ≡ false
