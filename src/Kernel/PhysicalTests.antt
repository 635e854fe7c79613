-- ===== src/Kernel/PhysicalTests.antt =====
-- The allocator of physical memory on two frames of 2 MiB, as in the tests of frame_allocator.rs,
-- and the result on it applied.
use not_an_oak_fork.Base.{ℕ, ◌+◌, ◌*◌, ◌/◌, ◌≡◌, refl, Bool, false, none, panic, arith, ltb, ltb→lt}
use not_an_oak_fork.Kernel.Frames.{allocate_frame, allocate_first, available}
use not_an_oak_fork.Kernel.Words.{words, words-IsBitArray}
use not_an_oak_fork.Kernel.Physical.{
  size_2mib, PhysicalMemoryAllocator, get_or_insert_small, allocate_small_frame,
  deallocate_small_frame,
}
use not_an_oak_fork.Kernel.PhysicalLaws.{Sound, Serves, allocate_small_frame-Serves}

abbrev elts : ℕ → ℕ
elts bits = (bits + 63) / 64

abbrev two_frames : PhysicalMemoryAllocator (ℕ → Bool) (ℕ → Bool)
two_frames = record {
  large_frames = record {
    allocated = λ i. false;
    valid = λ i. ltb i 2;
    range = record { start = 0; end = 2 * size_2mib };
  };
  small_frames = none;
}

two_frames-Sound : Sound (words 64) (words 512) elts two_frames
two_frames-Sound = record {
  large-WellFormed = λ i h e. omega (arith, ltb→lt i 2 e);
  aligned = refl;
  backed = tt;
}

allocate_small_frame-Serves_example :
    Serves
      (words 64)
      (words 512)
      elts
      two_frames
      (allocate_small_frame (words 64) (words 512) elts two_frames)
allocate_small_frame-Serves_example =
    allocate_small_frame-Serves (words 64) (words 512) elts (words-IsBitArray 64)
      (words-IsBitArray 512) refl refl two_frames two_frames-Sound

-- no frame is valid
abbrev no_frames : PhysicalMemoryAllocator (ℕ → Bool) (ℕ → Bool)
no_frames = record {
  large_frames = record {
    allocated = λ i. false;
    valid = λ i. false;
    range = record { start = 0; end = 2 * size_2mib };
  };
  small_frames = none;
}

no_frames_panics : allocate_small_frame (words 64) (words 512) elts no_frames ≡ panic
unfolding allocate_small_frame get_or_insert_small allocate_frame allocate_first available
no_frames_panics = refl

-- There is no small frame to free.
nothing_to_free : deallocate_small_frame (words 64) (words 512) elts 4096 two_frames ≡ panic
unfolding deallocate_small_frame
nothing_to_free = refl
