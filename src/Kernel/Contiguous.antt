-- ===== src/Kernel/Contiguous.antt =====
-- The ranges that `allocate_contiguous` hands out.
use not_an_oak_fork.Base.{
  ℕ, zero, suc, ◌+◌, ◌-◌, ◌*◌, ◌≤◌, ◌<◌, ◌≡◌, refl, inl, inr, true, false, ◌&&◌, Bool-cases,
  Option-cases, Option, some, none, Result, ok, arith, ltb, leb, le→leb, ==_iff, ◌==◌,
  if◌then◌else◌, some-inj,
}
use not_an_oak_fork.Kernel.Bits.{BitArray, IsBitArray}
use not_an_oak_fork.Kernel.Frames.{
  BitmapAllocator, PhysFrameRange, available, fill_slice, allocate, allocate_bits, all_ones,
  all_from, allocate_window, find_window, allocate_contiguous,
}
use not_an_oak_fork.Kernel.FrameLaws.{
  WellFormed, IsAvailable, IsAvailable-available, available-IsAvailable, frame-some,
  frame_idx-frame,
}

module _ {B : Type 0} (b : BitArray B) (size : ℕ) where
  all_from-true :
      (i n : ℕ) (x : B)
      → all_from b size i n x ≡ true
      → (j : ℕ) → i ≤ j
      → j < i + n
      → b.get j x ≡ true
  unfolding all_from
  all_from-true i zero x e j h k = absurd (omega arith)
  all_from-true i (suc n) x e j h k = elim (Bool-cases (b.get i x)) [
    | inl t ↦ elim (Bool-cases (i == j)) [
      | inl q ↦ rw (← (==_iff i j).0 q) t
      | inr q ↦ all_from-true (suc i) n x (rw t at e) j (ground arith) (omega arith)
    ]
    | inr f ↦ absurd (let q = rw f at e in cc)
  ]

  all-all_from :
      (i n : ℕ) (x : B)
      → ((j : ℕ) → i ≤ j → j < i + n → b.get j x ≡ true)
      → all_from b size i n x ≡ true
  unfolding all_from
  all-all_from i zero x h = refl
  all-all_from i (suc n) x h =
      rw (h i (omega arith) (omega arith))
        (all-all_from (suc i) n x (λ j p q. h j (omega arith) (omega arith)))

  find_window-some :
      (n i m k : ℕ) (x : B)
      → find_window b size n i m x ≡ some k
      → (k < i + m) × (all_from b size k n x ≡ true)
  unfolding find_window
  find_window-some n i zero k x e = cc
  find_window-some n i (suc m) k x e = elim (Bool-cases (all_from b size i n x)) [
    | inl t ↦ let p : i ≡ k = some-inj (rw t at e) in (omega (arith, p), rw (← p) t)
    | inr f ↦ let (h, t) = find_window-some n (suc i) m k x (rw f at e) in (omega (arith, h), t)
  ]

  find_window-none :
      (n i m : ℕ) (x : B)
      → find_window b size n i m x ≡ none
      → (k : ℕ) → i ≤ k
      → k < i + m
      → all_from b size k n x ≡ false
  unfolding find_window
  find_window-none n i zero x e k h p = absurd (omega arith)
  find_window-none n i (suc m) x e k h p = elim (Bool-cases (all_from b size i n x)) [
    | inl t ↦ absurd (let q = rw t at e in cc)
    | inr f ↦ elim (Bool-cases (i == k)) [
      | inl q ↦ rw (← (==_iff i k).0 q) f
      | inr q ↦ find_window-none n (suc i) m x (rw f at e) k (ground arith) (omega arith)
    ]
  ]

  -- All frames of `num` many from frame `i` on are there and can be handed out.
  abbrev pub Free : BitmapAllocator B → ℕ → ℕ → Type 0
  Free a i num = (i + num ≤ b.len) × ((j : ℕ) → i ≤ j → j < i + num → IsAvailable b size a j)

  -- The two allocators differ in that these frames are in use in the second.
  abbrev pub Takes : BitmapAllocator B → ℕ → ℕ → BitmapAllocator B → Type 0
  Takes a i num c =
      (c.valid ≡ a.valid)
      × (c.range ≡ a.range)
      × ((j : ℕ)
          → j < b.len
          → b.get j c.allocated
            ≡ (if leb i j && ltb j (i + num) then true else b.get j a.allocated))

  pub data Reserves (a : BitmapAllocator B) (num : ℕ)
      : Result (Option PhysFrameRange × BitmapAllocator B) → Type 0 where
    no_window : ((i : ℕ) → ¬ Free a i num) → Reserves a num (ok (none, a))
    reserved :
        (i : ℕ) (c : BitmapAllocator B)
        → Free a i num
        → Takes a i num c
        → Reserves a num (
            ok (
              some record {
                start = a.range.start + i * size;
                end = a.range.start + (i + num) * size;
              },
              c,
            ))

  module _ (l : IsBitArray B b) (positive : 0 < size) where
    allocate_bits-ok :
        (a : BitmapAllocator B) (i num : ℕ) (r : PhysFrameRange)
        → Free a i num
        → allocate_bits b size (some i) (some (i + num)) r a
          ≡ ok (some r, record a { allocated = b.fill i (i + num) true a.allocated })
    unfolding allocate_bits all_ones fill_slice
    allocate_bits-ok a i num r (h, free) =
        rw
          (
            le→leb i (i + num) (omega arith),
            le→leb (i + num) b.len h,
            all-all_from i (i + num - i) (available b size a)
                (λ j p q. available-IsAvailable b size l a j (free j p (omega arith))),
          )
          refl

    allocate_window-Reserves :
        (a : BitmapAllocator B) (i n : ℕ)
        → WellFormed b size a
        → Free a i (suc n)
        → Reserves a (suc n) (allocate_window b size (suc n) (some i) a)
    unfolding allocate_window allocate
    allocate_window-Reserves a i n wf (h, free) =
        let p : a.range.start + (i + suc n) * size ≤ a.range.end =
          (let g = free (i + n) (omega arith) (omega arith) in omega (arith, wf (i + n) g.0 g.1)) in
        let q : a.range.start + i * size ≤ a.range.end = omega (arith, p) in
        rw
          (
            frame-some b size l a i q,
            frame-some b size l a (i + suc n) p,
            frame_idx-frame b size l a i positive q,
            frame_idx-frame b size l a (i + suc n) positive p,
            allocate_bits-ok a i (suc n) _ (h, free),
          )
          (Reserves.reserved i _ (h, free)
            (refl, refl, λ j k. l.get-fill j i (i + suc n) true a.allocated k h))

    -- Over bit arrays that do as documented, with pages of a positive size and an allocator
    -- whose valid bits stand for frames in its range, `allocate_contiguous` for one frame or
    -- more never panics. Either there are not so many frames in a row that are valid and not in
    -- use, and it returns none and changes nothing; or it returns the range of such frames,
    -- which are in use from then on, and no other bit changes.
    pub allocate_contiguous-Reserves :
        (a : BitmapAllocator B) (n : ℕ)
        → WellFormed b size a
        → Reserves a (suc n) (allocate_contiguous b size (suc n) a)
    unfolding allocate_contiguous allocate_window
    allocate_contiguous-Reserves a n wf =
        elim (Option-cases (find_window b size (suc n) 0 (b.len - n) (available b size a))) [
          | inl e ↦ rw e (
              Reserves.no_window λ i (h, free).
                let f =
                  find_window-none (suc n) 0 (b.len - n) (available b size a) e i (omega arith)
                    (omega arith) in
                let t =
                  all-all_from i (suc n) (available b size a)
                    (λ j p q. available-IsAvailable b size l a j (free j p q)) in
                cc)
          | inr (i, e) ↦
              let (h, t) = find_window-some (suc n) 0 (b.len - n) i (available b size a) e in
              rw e (
                allocate_window-Reserves a i n wf (
                  omega arith,
                  λ j p q.
                      IsAvailable-available b size l a j (omega arith)
                        (all_from-true i (suc n) (available b size a) t j p q),
                ))
        ]
