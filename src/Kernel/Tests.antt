-- ===== src/Kernel/Tests.antt =====
-- The frame allocator on three frames of 4096 bytes, as in the tests of
-- bitmap_frame_allocator.rs, and its results applied.
use not_an_oak_fork.Base.{
  ℕ, ◌+◌, ◌≡◌, refl, Bool, true, false, some, none, ok, panic, arith, ltb, ltb→lt, ◌==◌, ◌/◌,
}
use not_an_oak_fork.Kernel.Frames.{
  BitmapAllocator, PhysFrameRange, new, frame, frame_idx, available, bit_at, fill_slice, all_from,
  fill_valid, mark_valid, find_window, allocate_window, allocate_contiguous, num_valid,
  num_allocated, allocate_first, allocate_frame, free_bit, deallocate_frame,
}
use not_an_oak_fork.Kernel.FrameLaws.{
  WellFormed, Hands, GivesBack, allocate_frame-Hands, deallocate_frame-allocate_frame,
}
use not_an_oak_fork.Kernel.Reachable.{Step, Reachable, Reachable-WellFormed}
use not_an_oak_fork.Kernel.Contiguous.{Reserves, allocate_contiguous-Reserves}
use not_an_oak_fork.Kernel.Largest.{
  streak_at, scan_streaks, key, longer, longest, max_by_key, iter_ones, streak_range,
  largest_available,
}
use not_an_oak_fork.Kernel.LargestAvailable.{Largest, largest_available-Largest}
use not_an_oak_fork.Kernel.Words.{words, words-IsBitArray}

abbrev elts : ℕ → ℕ
elts bits = (bits + 63) / 64

abbrev three_frames : PhysFrameRange
three_frames = record { start = 4096; end = 16384 }

-- all bits unset
abbrev fresh : BitmapAllocator (ℕ → Bool)
fresh = record { allocated = λ i. false; valid = λ i. false; range = three_frames }

-- the three frames are there, and the first is in use
abbrev in_use : BitmapAllocator (ℕ → Bool)
in_use = record { allocated = λ i. i == 0; valid = λ i. ltb i 3; range = three_frames }

abbrev second_taken : BitmapAllocator (ℕ → Bool)
second_taken = record in_use { allocated = (words 64).set 1 true in_use.allocated }

abbrev all_there : BitmapAllocator (ℕ → Bool)
all_there = record fresh { valid = (words 64).fill 0 3 true fresh.valid }

in_use-WellFormed : WellFormed (words 64) 4096 in_use
in_use-WellFormed i h e = omega (arith, ltb→lt i 3 e)

starts_empty : new (words 64) 4096 elts 1 three_frames ≡ ok fresh
unfolding new
starts_empty = refl

new_wrong_size : new (words 64) 4096 elts 0 three_frames ≡ panic
unfolding new
new_wrong_size = refl

mark_fresh : mark_valid (words 64) 4096 three_frames true fresh ≡ ok all_there
unfolding mark_valid fill_valid fill_slice frame_idx
mark_fresh = refl

mark_outside : mark_valid (words 64) 4096 record { start = 0; end = 4096 } true fresh ≡ panic
unfolding mark_valid fill_valid frame_idx
mark_outside = refl

counts : (num_valid (words 64) 4096 in_use ≡ 3) × (num_allocated (words 64) 4096 in_use ≡ 1)
unfolding num_valid num_allocated
counts = (refl, refl)

takes_second : allocate_frame (words 64) 4096 in_use ≡ ok (some 8192, second_taken)
unfolding allocate_frame allocate_first frame available
takes_second = refl

frees_unallocated : deallocate_frame (words 64) 4096 8192 in_use ≡ panic
unfolding deallocate_frame free_bit bit_at frame_idx
frees_unallocated = refl

four_frames : allocate_contiguous (words 64) 4096 4 in_use ≡ ok (none, in_use)
unfolding allocate_contiguous find_window allocate_window all_from available
four_frames = refl

-- as in `get_largest`: the second of three frames is taken away
largest_around_hole :
    largest_available
      (words 64)
      4096
      (record all_there { valid = (words 64).set 1 false all_there.valid })
    ≡ ok (some record { start = 12288; end = 16384 })
unfolding largest_available iter_ones available scan_streaks streak_at max_by_key longest longer key
    streak_range frame
largest_around_hole = refl

largest_in_use :
    largest_available (words 64) 4096 in_use ≡ ok (some record { start = 8192; end = 16384 })
unfolding largest_available iter_ones available scan_streaks streak_at max_by_key longest longer key
    streak_range frame
largest_in_use = refl

largest_available-Largest_example :
    Largest (words 64) 4096 in_use (largest_available (words 64) 4096 in_use)
largest_available-Largest_example =
    largest_available-Largest (words 64) 4096 (words-IsBitArray 64) in_use in_use-WellFormed

allocate_frame-Hands_example : Hands (words 64) 4096 in_use (allocate_frame (words 64) 4096 in_use)
allocate_frame-Hands_example =
    allocate_frame-Hands (words 64) 4096 (words-IsBitArray 64) in_use in_use-WellFormed

deallocate_frame-allocate_frame_example : GivesBack (words 64) 4096 in_use second_taken 8192
deallocate_frame-allocate_frame_example =
    deallocate_frame-allocate_frame (words 64) 4096 (words-IsBitArray 64) in_use second_taken 8192
      (omega arith) in_use-WellFormed takes_second

Reachable-WellFormed_example :
    WellFormed (words 64) 4096 all_there × (all_there.range ≡ three_frames)
Reachable-WellFormed_example =
    Reachable-WellFormed (words 64) 4096 (words-IsBitArray 64) (omega arith) elts 1 three_frames
      all_there
      (Reachable.next fresh all_there (Reachable.made fresh starts_empty)
        (Step.marks three_frames true mark_fresh))

allocate_contiguous-Reserves_example :
    Reserves (words 64) 4096 in_use 2 (allocate_contiguous (words 64) 4096 2 in_use)
allocate_contiguous-Reserves_example =
    allocate_contiguous-Reserves (words 64) 4096 (words-IsBitArray 64) (omega arith) in_use 1
      in_use-WellFormed
