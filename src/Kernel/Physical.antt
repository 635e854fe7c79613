-- ===== src/Kernel/Physical.antt =====
-- `PhysicalMemoryAllocator` of oak_restricted_kernel/src/mm/frame_allocator.rs: frames of 2 MiB, and
-- one of them that is handed out in frames of 4 KiB.
use not_an_oak_fork.Base.{
  ℕ, ◌+◌, ◌*◌, ◌%◌, Bool, true, if◌then◌else◌, ◌==◌, Option, some, none, Result, ok, unwrap, ◌>>=◌,
}
use not_an_oak_fork.Kernel.Bits.{BitArray}
use not_an_oak_fork.Kernel.Frames.{
  PhysFrame, PhysFrameRange, BitmapAllocator, new, mark_valid, allocate_contiguous, num_valid,
  num_allocated, allocate_frame, deallocate_frame,
}
use not_an_oak_fork.Kernel.Largest.{largest_available}

abbrev pub size_2mib : ℕ
size_2mib = 2097152

abbrev pub size_4kib : ℕ
size_4kib = 4096

unfoldable pub from_start_address : ℕ → ℕ → Option PhysFrame
from_start_address size address = if address % size == 0 then some address else none

-- The bit arrays of the large frames, and those of the small ones.
module _ (B S : Type 0) where
  pub record PhysicalMemoryAllocator : Type 0 where
    pub large_frames : BitmapAllocator B
    pub small_frames : Option (BitmapAllocator S)

module _ {B S : Type 0} (b : BitArray B) (s : BitArray S) (elts : ℕ → ℕ) where
  unfoldable pub new_range : ℕ → PhysFrameRange → Result (PhysicalMemoryAllocator B S)
  new_range n range = do
    large_frames ← new b size_2mib elts n range
    ok record { large_frames = large_frames; small_frames = none }

  unfoldable pub new_all : ℕ → Result (PhysicalMemoryAllocator B S)
  unfolding new_range
  new_all n = new_range n record { start = 0; end = n * 64 * size_2mib }

  unfoldable pub mark_large_valid :
      PhysFrameRange → Bool → PhysicalMemoryAllocator B S → Result (PhysicalMemoryAllocator B S)
  mark_large_valid range valid p = do
    large_frames ← mark_valid b size_2mib range valid p.large_frames
    ok record p { large_frames = large_frames }

  unfoldable pub largest_large_available :
      PhysicalMemoryAllocator B S → Result (Option PhysFrameRange)
  largest_large_available p = largest_available b size_2mib p.large_frames

  unfoldable pub allocate_large_contiguous :
      ℕ → PhysicalMemoryAllocator B S → Result (Option PhysFrameRange × PhysicalMemoryAllocator B S)
  allocate_large_contiguous num p = do
    (range, large_frames) ← allocate_contiguous b size_2mib num p.large_frames
    ok (range, record p { large_frames = large_frames })

  unfoldable pub map_or_zero : (BitmapAllocator S → ℕ) → Option (BitmapAllocator S) → ℕ
  map_or_zero count none = 0
  map_or_zero count (some frames) = count frames

  unfoldable pub num_valid_frames : PhysicalMemoryAllocator B S → ℕ × ℕ
  unfolding map_or_zero
  num_valid_frames p =
      (num_valid b size_2mib p.large_frames, map_or_zero (num_valid s size_4kib) p.small_frames)

  unfoldable pub num_allocated_frames : PhysicalMemoryAllocator B S → ℕ × ℕ
  unfolding map_or_zero
  num_allocated_frames p = (
    num_allocated b size_2mib p.large_frames,
    map_or_zero (num_allocated s size_4kib) p.small_frames,
  )

  unfoldable pub allocate_large_frame :
      PhysicalMemoryAllocator B S → Result (Option PhysFrame × PhysicalMemoryAllocator B S)
  allocate_large_frame p = do
    (frame, large_frames) ← allocate_frame b size_2mib p.large_frames
    ok (frame, record p { large_frames = large_frames })

  unfoldable pub deallocate_large_frame :
      PhysFrame → PhysicalMemoryAllocator B S → Result (PhysicalMemoryAllocator B S)
  deallocate_large_frame frame p = do
    large_frames ← deallocate_frame b size_2mib frame p.large_frames
    ok record p { large_frames = large_frames }

  -- A large frame is broken up.
  unfoldable pub break_frame : PhysFrame → Result (BitmapAllocator S)
  unfolding from_start_address
  break_frame frame = do
    start ← unwrap (from_start_address size_4kib frame)
    end ← unwrap (from_start_address size_4kib (frame + size_2mib))
    alloc ← new s size_4kib elts 8 record { start = start; end = end }
    mark_valid s size_4kib record { start = start; end = end } true alloc

  unfoldable pub get_or_insert_small :
      Option (BitmapAllocator S)
      → BitmapAllocator B
      → Result (BitmapAllocator S × BitmapAllocator B)
  unfolding break_frame
  get_or_insert_small (some small) large = ok (small, large)
  get_or_insert_small none large = do
    (frame, large') ← allocate_frame b size_2mib large
    frame' ← unwrap frame
    small ← break_frame frame'
    ok (small, large')

  unfoldable pub allocate_small_frame :
      PhysicalMemoryAllocator B S → Result (Option PhysFrame × PhysicalMemoryAllocator B S)
  unfolding get_or_insert_small
  allocate_small_frame p = do
    (small, large) ← get_or_insert_small p.small_frames p.large_frames
    (frame, small') ← allocate_frame s size_4kib small
    ok (frame, record { large_frames = large; small_frames = some small' })

  unfoldable pub deallocate_small_frame :
      PhysFrame → PhysicalMemoryAllocator B S → Result (PhysicalMemoryAllocator B S)
  deallocate_small_frame frame p = do
    small ← unwrap p.small_frames
    small' ← deallocate_frame s size_4kib frame small
    ok record p { small_frames = some small' }
