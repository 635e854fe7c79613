-- ===== src/Kernel/Largest.antt =====
-- `largest_available` of oak_restricted_kernel/src/mm/bitmap_frame_allocator.rs.
use not_an_oak_fork.Base.{
  ℕ, zero, suc, ◌+◌, ◌-◌, if◌then◌else◌, leb, ◌==◌, Option, some, none, List, [], ◌∷◌, Result, ok,
  unwrap, ◌>>=◌,
}
use not_an_oak_fork.Kernel.Bits.{BitArray}
use not_an_oak_fork.Kernel.Frames.{BitmapAllocator, PhysFrameRange, frame, available}

-- the first and the last index of a streak of set bits
pub record Streak : Type 0 where
  pub start_idx : ℕ
  pub end_idx : ℕ

-- the streak that a set bit at `idx` continues or starts
unfoldable pub streak_at : Option Streak → ℕ → Streak
streak_at none idx = record { start_idx = idx; end_idx = idx }
streak_at (some s) idx = record {
  start_idx = if idx == (s.end_idx + 1) then s.start_idx else idx;
  end_idx = idx;
}

-- the `scan`, over the indices of the set bits
unfoldable pub scan_streaks : Option Streak → List ℕ → List Streak
unfolding streak_at
scan_streaks state [] = []
scan_streaks state (idx ∷ rest) =
    streak_at state idx ∷ scan_streaks (some (streak_at state idx)) rest

-- the key by which streaks are compared
unfoldable pub key : Streak → ℕ
key s = s.end_idx - s.start_idx

-- `max_by_key`: the last of those with the largest key
unfoldable pub longer : Streak → Streak → Streak
unfolding key
longer s t = if leb (key s) (key t) then t else s

unfoldable pub longest : Streak → List Streak → Streak
unfolding longer
longest s [] = s
longest s (t ∷ rest) = longest (longer s t) rest

unfoldable pub max_by_key : List Streak → Option Streak
unfolding longest
max_by_key [] = none
max_by_key (s ∷ rest) = some (longest s rest)

module _ {B : Type 0} (b : BitArray B) (size : ℕ) where
  -- `iter_ones`, over the `n` bits from bit `i` on
  unfoldable pub iter_ones : ℕ → ℕ → B → List ℕ
  iter_ones zero i x = []
  iter_ones (suc n) i x = let rest = iter_ones n (suc i) x in if b.get i x then i ∷ rest else rest

  unfoldable pub streak_range : BitmapAllocator B → Option Streak → Result (Option PhysFrameRange)
  unfolding frame
  streak_range a none = ok none
  streak_range a (some s) = do
    start ← unwrap (frame b size a s.start_idx)
    last ← unwrap (frame b size a s.end_idx)
    ok (some record { start = start; end = last + size })

  unfoldable pub largest_available : BitmapAllocator B → Result (Option PhysFrameRange)
  unfolding available iter_ones scan_streaks max_by_key streak_range
  largest_available a =
      streak_range a (max_by_key (scan_streaks none (iter_ones b.len 0 (available b size a))))
