-- ===== src/Kernel/Frames.antt =====
-- `BitmapAllocator` of oak_restricted_kernel/src/mm/bitmap_frame_allocator.rs. A frame is its start
-- address, and `size` is the size of a page; a panic is the result `panic`.
use not_an_oak_fork.Base.{
  ℕ, zero, suc, ◌+◌, ◌-◌, ◌*◌, ◌/◌, Bool, true, false, ◌&&◌, ◌||◌, not, if◌then◌else◌, ltb, leb,
  ◌==◌, Option, some, none, Result, ok, panic, unwrap, ◌>>=◌,
}
use not_an_oak_fork.Kernel.Bits.{BitArray}

abbrev pub PhysFrame : Type 0
PhysFrame = ℕ

-- from `start` up to `end`, which is not in the range
pub record PhysFrameRange : Type 0 where
  pub start : PhysFrame
  pub end : PhysFrame

module _ (B : Type 0) where
  pub record BitmapAllocator : Type 0 where
    pub allocated : B
    pub valid : B
    pub range : PhysFrameRange

module _ {B : Type 0} (b : BitArray B) (size : ℕ) where
  -- `elts::<u64>` of bitvec is a parameter: the words that so many bits take.
  unfoldable pub new : (ℕ → ℕ) → ℕ → PhysFrameRange → Result (BitmapAllocator B)
  new elts n range =
      if ltb range.end range.start || not (elts ((range.end - range.start) / size) == n)
      then panic
      else ok record { allocated = b.zero_bits; valid = b.zero_bits; range = range }

  unfoldable pub frame : BitmapAllocator B → ℕ → Option PhysFrame
  frame a i =
      if ltb a.range.end (a.range.start + i * size) then none else some (a.range.start + i * size)

  unfoldable pub frame_idx : BitmapAllocator B → PhysFrame → Option ℕ
  frame_idx a f =
      if ltb f a.range.start || ltb a.range.end f then none else some ((f - a.range.start) / size)

  unfoldable pub available : BitmapAllocator B → B
  available a = b.bitand a.valid (b.complement a.allocated)

  -- an index into a bit array, and a slice of one: a panic out of bounds
  unfoldable pub bit_at : ℕ → B → Result Bool
  bit_at i x = if ltb i b.len then ok (b.get i x) else panic

  unfoldable pub fill_slice : ℕ → ℕ → Bool → B → Result B
  fill_slice s e v x = if leb s e && leb e b.len then ok (b.fill s e v x) else panic

  -- whether the bits from `i` on, so many of them, are all set
  unfoldable pub all_from : ℕ → ℕ → B → Bool
  all_from i zero x = true
  all_from i (suc n) x = b.get i x && all_from (suc i) n x

  unfoldable pub all_ones : ℕ → ℕ → B → Result Bool
  unfolding all_from
  all_ones s e x = if leb s e && leb e b.len then ok (all_from s (e - s) x) else panic

  unfoldable pub fill_valid :
      Option ℕ → Option ℕ → Bool → BitmapAllocator B → Result (BitmapAllocator B)
  unfolding fill_slice
  fill_valid (some s) (some e) v a =
      fill_slice s e v a.valid >>= λ valid. ok record a { valid = valid }
  fill_valid (some s) none v a = panic
  fill_valid none e v a = panic

  unfoldable pub mark_valid : PhysFrameRange → Bool → BitmapAllocator B → Result (BitmapAllocator B)
  unfolding frame_idx fill_valid
  mark_valid range v a = fill_valid (frame_idx a range.start) (frame_idx a range.end) v a

  unfoldable pub allocate_bits :
      Option ℕ
      → Option ℕ
      → PhysFrameRange
      → BitmapAllocator B
      → Result (Option PhysFrameRange × BitmapAllocator B)
  unfolding all_ones available fill_slice
  allocate_bits (some s) (some e) range a = do
    all ← all_ones s e (available a)
    if all
        then (fill_slice s e true a.allocated >>= λ allocated.
            ok (some range, record a { allocated = allocated }))
        else ok (none, a)
  allocate_bits (some s) none range a = panic
  allocate_bits none e range a = panic

  unfoldable pub allocate :
      PhysFrameRange → BitmapAllocator B → Result (Option PhysFrameRange × BitmapAllocator B)
  unfolding frame_idx allocate_bits
  allocate range a = allocate_bits (frame_idx a range.start) (frame_idx a range.end) range a

  -- the first of `n` windows of `num` bits, from that at `i` on, whose bits are all set
  unfoldable pub find_window : ℕ → ℕ → ℕ → B → Option ℕ
  unfolding all_from
  find_window num i zero x = none
  find_window num i (suc n) x =
      let later = find_window num (suc i) n x in if all_from i num x then some i else later

  unfoldable pub allocate_window :
      ℕ → Option ℕ → BitmapAllocator B → Result (Option PhysFrameRange × BitmapAllocator B)
  unfolding frame allocate
  allocate_window num none a = ok (none, a)
  allocate_window num (some i) a = do
    start ← unwrap (frame a i)
    end ← unwrap (frame a (i + num))
    allocate record { start = start; end = end } a

  -- `windows` panics on windows of no bits.
  unfoldable pub allocate_contiguous :
      ℕ → BitmapAllocator B → Result (Option PhysFrameRange × BitmapAllocator B)
  unfolding available find_window allocate_window
  allocate_contiguous zero a = panic
  allocate_contiguous (suc n) a =
      allocate_window (suc n) (find_window (suc n) 0 (b.len - n) (available a)) a

  unfoldable pub num_valid : BitmapAllocator B → ℕ
  num_valid a = b.count_ones a.valid

  unfoldable pub num_allocated : BitmapAllocator B → ℕ
  num_allocated a = b.count_ones a.allocated

  unfoldable pub allocate_first :
      Option ℕ → BitmapAllocator B → Result (Option PhysFrame × BitmapAllocator B)
  unfolding frame
  allocate_first none a = ok (none, a)
  allocate_first (some i) a =
      if ltb i b.len
      then ok (frame a i, record a { allocated = b.set i true a.allocated })
      else panic

  unfoldable pub allocate_frame : BitmapAllocator B → Result (Option PhysFrame × BitmapAllocator B)
  unfolding available allocate_first
  allocate_frame a = allocate_first (b.first_one (available a)) a

  unfoldable pub free_bit : Option ℕ → BitmapAllocator B → Result (BitmapAllocator B)
  unfolding bit_at
  free_bit none a = panic
  free_bit (some i) a = do
    is_valid ← bit_at i a.valid
    is_allocated ← bit_at i a.allocated
    if is_valid && is_allocated
        then ok record a { allocated = b.set i false a.allocated }
        else panic

  unfoldable pub deallocate_frame : PhysFrame → BitmapAllocator B → Result (BitmapAllocator B)
  unfolding frame_idx free_bit
  deallocate_frame f a = free_bit (frame_idx a f) a
