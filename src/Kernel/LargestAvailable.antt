-- ===== src/Kernel/LargestAvailable.antt =====
-- What `largest_available` returns: no row of available frames is longer.
use not_an_oak_fork.Base.{
  ℕ, ◌+◌, ◌-◌, ◌*◌, ◌≤◌, ◌<◌, ◌≡◌, subst, inl, inr, Option-cases, Option, some, none, Result, ok,
  arith,
}
use not_an_oak_fork.Kernel.Bits.{BitArray, IsBitArray}
use not_an_oak_fork.Kernel.Frames.{BitmapAllocator, PhysFrameRange, available}
use not_an_oak_fork.Kernel.FrameLaws.{
  WellFormed, IsAvailable, IsAvailable-available, available-IsAvailable, frame-some,
}
use not_an_oak_fork.Kernel.Largest.{
  Streak, scan_streaks, key, max_by_key, iter_ones, streak_range, largest_available,
}
use not_an_oak_fork.Kernel.LargestLaws.{
  Among, max_by_key-some, max_by_key-none, Sound, scan-Sound, scan-Follows,
}

module _ {B : Type 0} (b : BitArray B) (size : ℕ) where
  -- The frames from `first` to `last` are there and can be handed out.
  abbrev pub AllAvailable : BitmapAllocator B → ℕ → ℕ → Type 0
  AllAvailable a first last =
      (first ≤ last) × (last < b.len) × ((j : ℕ) → first ≤ j → j ≤ last → IsAvailable b size a j)

  pub data Largest (a : BitmapAllocator B) : Result (Option PhysFrameRange) → Type 0 where
    nothing : ((i : ℕ) → ¬ IsAvailable b size a i) → Largest a (ok none)
    largest :
        (first last : ℕ)
        → AllAvailable a first last
        → ((k e : ℕ) → AllAvailable a k e → e - k ≤ last - first)
        → Largest a (
            ok (
              some record {
                start = a.range.start + first * size;
                end = a.range.start + last * size + size;
              }))

  module _ (l : IsBitArray B b) where
    -- a row of available frames is in a streak of the scan
    seen :
        (a : BitmapAllocator B) (k e : ℕ)
        → AllAvailable a k e
        → (t : Streak) × Among t (scan_streaks none (iter_ones b size b.len 0 (available b size a)))
          × (t.end_idx ≡ e)
          × (t.start_idx ≤ k)
    seen a k e (p, h, free) =
        scan-Follows b size (available b size a) b.len 0 none k e (λ s q. cc) (inl (omega arith)) p
          (omega arith) (omega arith) (λ j c d. available-IsAvailable b size l a j (free j c d))

    streak_range-Largest :
        (a : BitmapAllocator B) (s : Streak)
        → WellFormed b size a
        → AllAvailable a s.start_idx s.end_idx
        → ((k e : ℕ) → AllAvailable a k e → e - k ≤ s.end_idx - s.start_idx)
        → Largest a (streak_range b size a (some s))
    unfolding streak_range
    streak_range-Largest a s wf (p, h, free) most =
        let g = free s.end_idx p (omega arith) in
        let w = wf s.end_idx h g.1 in
        let f = free s.start_idx (omega arith) p in
        let v = wf s.start_idx f.0 f.1 in
        rw
          (
            frame-some b size l a s.start_idx (omega (arith, v)),
            frame-some b size l a s.end_idx (omega (arith, w)),
          )
          (Largest.largest s.start_idx s.end_idx (p, h, free) most)

    -- Over bit arrays that do as documented, and with an allocator whose valid bits stand for
    -- frames in its range, `largest_available` never panics. Either no frame is both valid and
    -- not in use, and it returns none; or it returns the range of a row of such frames, from
    -- the first of them up to the end of the last, and no row of such frames is longer.
    pub largest_available-Largest :
        (a : BitmapAllocator B) → WellFormed b size a → Largest a (largest_available b size a)
    unfolding largest_available streak_range key
    largest_available-Largest a wf =
        let bits = available b size a in
        let list = scan_streaks none (iter_ones b size b.len 0 bits) in
        elim (Option-cases (max_by_key list)) [
          | inl e ↦ rw e (
              Largest.nothing λ i g.
                let (t, m, _, _) =
                  seen a i i
                    (omega arith, g.0, λ j c d. subst (IsAvailable b size a) (omega arith) g) in
                max_by_key-none list t e m)
          | inr (s, e) ↦
              let ((sound, bound), most) =
                max_by_key-some list s e (λ t. Sound b size bits t × (t.end_idx < 0 + b.len))
                  (λ t m. scan-Sound b size bits b.len 0 none (λ s q. cc) t m) in
              rw e (
                streak_range-Largest a s wf
                  (
                    sound.0,
                    omega (arith, bound),
                    λ j c d.
                        IsAvailable-available b size l a j (omega (arith, bound)) (sound.1 j c d),
                  )
                  (λ k f free. let (t, m, u, v) = seen a k f free in omega (arith, most t m, u, v)))
        ]
