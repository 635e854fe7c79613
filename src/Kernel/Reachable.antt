-- ===== src/Kernel/Reachable.antt =====
-- The allocators that the operations make of a new one, and what holds of all of them.
use native.Mathlib.Nat.{div-mul-le_self, mul-le-mul_right}
use not_an_oak_fork.Base.{
  and-eq-true, or-eq-false, ltb_false→le, ℕ, zero, suc, ◌+◌, ◌-◌, ◌*◌, ◌/◌, ◌≤◌, ◌<◌, ◌≡◌, refl,
  sym, ap, ◌∙◌, inl, inr, Bool, true, ◌&&◌, ◌||◌, not, Bool-cases, Option, some, none, ok, arith,
  ltb, leb, ltb→lt, leb→le, if◌then◌else◌, ok-inj, some-inj, >>=-eq-ok, unwrap, ◌==◌,
}
use not_an_oak_fork.Kernel.Bits.{BitArray, IsBitArray}
use not_an_oak_fork.Kernel.Frames.{
  BitmapAllocator, PhysFrame, PhysFrameRange, frame, frame_idx, available, new, mark_valid,
  fill_valid, fill_slice, allocate, allocate_bits, all_ones, allocate_window, allocate_contiguous,
  allocate_first, allocate_frame, bit_at, free_bit, deallocate_frame,
}
use not_an_oak_fork.Kernel.FrameLaws.{WellFormed}

module _ {B : Type 0} (b : BitArray B) (size : ℕ) where
  pub data Step (a c : BitmapAllocator B) : Type 0 where
    marks : (r : PhysFrameRange) (v : Bool) → mark_valid b size r v a ≡ ok c → Step a c
    reserves :
        (r : PhysFrameRange) (o : Option PhysFrameRange)
        → allocate b size r a ≡ ok (o, c)
        → Step a c
    reserves_some :
        (n : ℕ) (o : Option PhysFrameRange) → allocate_contiguous b size n a ≡ ok (o, c) → Step a c
    takes : (o : Option PhysFrame) → allocate_frame b size a ≡ ok (o, c) → Step a c
    frees : (f : PhysFrame) → deallocate_frame b size f a ≡ ok c → Step a c

  pub data Reachable (elts : ℕ → ℕ) (n : ℕ) (range : PhysFrameRange)
      : BitmapAllocator B → Type 0 where
    made : (a : BitmapAllocator B) → new b size elts n range ≡ ok a → Reachable elts n range a
    next :
        (a c : BitmapAllocator B) → Reachable elts n range a → Step a c → Reachable elts n range c

  -- Neither which frames are valid nor the range has changed.
  SameFrames : BitmapAllocator B → BitmapAllocator B → Type 0
  SameFrames a c = (c.valid ≡ a.valid) × (c.range ≡ a.range)

  SameFrames-WellFormed :
      (a c : BitmapAllocator B) → SameFrames a c → WellFormed b size a → WellFormed b size c
  unfolding SameFrames
  SameFrames-WellFormed a c (v, r) wf i h e = rw r (wf i h (rw (← v) e))

  allocate_first-SameFrames :
      (o : Option ℕ) (a c : BitmapAllocator B) {p : Option PhysFrame}
      → allocate_first b size o a ≡ ok (p, c)
      → SameFrames a c
  unfolding SameFrames allocate_first
  allocate_first-SameFrames none a c e = rw (← ap (λ q. q.1) (ok-inj e)) (refl, refl)
  allocate_first-SameFrames (some i) a c e = elim (Bool-cases (ltb i b.len)) [
    | inl t ↦ rw (← ap (λ q. q.1) (ok-inj (rw t at e))) (refl, refl)
    | inr f ↦ absurd (let q = rw f at e in cc)
  ]

  allocate_bits-SameFrames :
      (s e : Option ℕ) (r : PhysFrameRange) (a c : BitmapAllocator B) {p : Option PhysFrameRange}
      → allocate_bits b size s e r a ≡ ok (p, c)
      → SameFrames a c
  unfolding SameFrames allocate_bits
  allocate_bits-SameFrames none e r a c h = cc
  allocate_bits-SameFrames (some s) none r a c h = cc
  allocate_bits-SameFrames (some s) (some e) r a c h =
      let (all, p, q) = >>=-eq-ok (all_ones b size s e (available b size a)) _ h in
      elim (Bool-cases all) [
        | inl t ↦
            let (x, y, z) = >>=-eq-ok (fill_slice b size s e true a.allocated) _ (rw t at q) in
            rw (← ap (λ q. q.1) (ok-inj z)) (refl, refl)
        | inr f ↦ rw (← ap (λ q. q.1) (ok-inj (rw f at q))) (refl, refl)
      ]

  allocate_window-SameFrames :
      (n : ℕ) (o : Option ℕ) (a c : BitmapAllocator B) {p : Option PhysFrameRange}
      → allocate_window b size n o a ≡ ok (p, c)
      → SameFrames a c
  unfolding allocate_window SameFrames allocate
  allocate_window-SameFrames n none a c e = rw (← ap (λ q. q.1) (ok-inj e)) (refl, refl)
  allocate_window-SameFrames n (some i) a c e =
      let (x, p, q) = >>=-eq-ok (unwrap (frame b size a i)) _ e in
      let (y, r, t) = >>=-eq-ok (unwrap (frame b size a (i + n))) _ q in
      allocate_bits-SameFrames (frame_idx b size a x) (frame_idx b size a y) _ a c t

  free_bit-SameFrames :
      (o : Option ℕ) (a c : BitmapAllocator B) → free_bit b size o a ≡ ok c → SameFrames a c
  unfolding SameFrames free_bit
  free_bit-SameFrames none a c e = cc
  free_bit-SameFrames (some i) a c e =
      let (v, p, q) = >>=-eq-ok (bit_at b size i a.valid) _ e in
      let (w, x, y) = >>=-eq-ok (bit_at b size i a.allocated) _ q in
      elim (Bool-cases (v && w)) [
        | inl t ↦ rw (← ok-inj (rw t at y)) (refl, refl)
        | inr f ↦ let z = rw f at y in cc
      ]

  module _ (l : IsBitArray B b) (positive : 0 < size) where
    new-WellFormed :
        (elts : ℕ → ℕ) (n : ℕ) (range : PhysFrameRange) (a : BitmapAllocator B)
        → new b size elts n range ≡ ok a
        → WellFormed b size a × (a.range ≡ range)
    unfolding new
    new-WellFormed elts n range a e =
        elim (Bool-cases
          (ltb range.end range.start || not (elts ((range.end - range.start) / size) == n))) [
            | inl t ↦ absurd (let q = rw t at e in cc)
            | inr f ↦
                rw (← ok-inj (rw f at e))
                  (λ i h g. absurd (let q = l.get-zero_bits i h in cc), refl)
          ]

    -- A frame whose index is below that of a frame of the range lies in the range.
    frame_idx-bound :
        (a : BitmapAllocator B) (f : PhysFrame) (i k : ℕ)
        → frame_idx b size a f ≡ some k
        → i < k
        → a.range.start + suc i * size ≤ a.range.end
    unfolding frame_idx
    frame_idx-bound a f i k e h = elim (Bool-cases (ltb f a.range.start || ltb a.range.end f)) [
      | inl t ↦ absurd (let q = rw t at e in cc)
      | inr c ↦
          let q = some-inj (rw c at e) in
          let m = mul-le-mul_right size h in
          let d = div-mul-le_self (f - a.range.start) size in
          let (_, p) = or-eq-false _ _ c in
          let n : f ≤ a.range.end = ltb_false→le a.range.end f p in
          omega (arith, m, rw q at d, n, positive)
    ]

    fill_valid-WellFormed :
        (a c : BitmapAllocator B) (s e : Option ℕ) (v : Bool)
        → fill_valid b size s e v a ≡ ok c
        → ((i k : ℕ) → e ≡ some k → i < k → a.range.start + suc i * size ≤ a.range.end)
        → WellFormed b size a
        → WellFormed b size c × (c.range ≡ a.range)
    unfolding fill_valid fill_slice
    fill_valid-WellFormed a c none e v h g wf = cc
    fill_valid-WellFormed a c (some s) none v h g wf = cc
    fill_valid-WellFormed a c (some s) (some e) v h g wf =
        let filled : (i : ℕ)
            → i < b.len
            → (if leb s i && ltb i e then v else b.get i a.valid) ≡ true
            → a.range.start + suc i * size ≤ a.range.end =
          λ i k q. elim (Bool-cases (leb s i && ltb i e)) [
            | inl y ↦ g i e refl (ltb→lt i e (and-eq-true _ _ y).1)
            | inr n ↦ wf i k (rw n at q)
          ] in
        elim (Bool-cases (leb s e && leb e b.len)) [
          | inl t ↦
              let (_, in_range) = and-eq-true _ _ t in
              rw (← ok-inj (rw t at h)) (
                λ i k q.
                    filled i k (sym (l.get-fill i s e v a.valid k (leb→le e b.len in_range)) ∙ q),
                refl,
              )
          | inr f ↦ absurd (let q = rw f at h in cc)
        ]

    mark_valid-WellFormed :
        (a c : BitmapAllocator B) (r : PhysFrameRange) (v : Bool)
        → mark_valid b size r v a ≡ ok c
        → WellFormed b size a
        → WellFormed b size c × (c.range ≡ a.range)
    unfolding mark_valid
    mark_valid-WellFormed a c r v e wf =
        fill_valid-WellFormed a c (frame_idx b size a r.start) (frame_idx b size a r.end) v e
          (λ i k. frame_idx-bound a r.end i k) wf

    Step-WellFormed :
        (a c : BitmapAllocator B)
        → Step a c
        → WellFormed b size a
        → WellFormed b size c × (c.range ≡ a.range)
    unfolding allocate allocate_contiguous allocate_frame deallocate_frame SameFrames
    Step-WellFormed a c (marks r v e) wf = mark_valid-WellFormed a c r v e wf
    Step-WellFormed a c (reserves r o e) wf =
        let s =
          allocate_bits-SameFrames (frame_idx b size a r.start) (frame_idx b size a r.end) r a c
            e in
        (SameFrames-WellFormed a c s wf, s.1)
    Step-WellFormed a c (reserves_some zero o e) wf = cc
    Step-WellFormed a c (reserves_some (suc n) o e) wf =
        let s = allocate_window-SameFrames (suc n) _ a c e in (SameFrames-WellFormed a c s wf, s.1)
    Step-WellFormed a c (takes o e) wf =
        let s = allocate_first-SameFrames _ a c e in (SameFrames-WellFormed a c s wf, s.1)
    Step-WellFormed a c (frees f e) wf =
        let s = free_bit-SameFrames _ a c e in (SameFrames-WellFormed a c s wf, s.1)

    -- Over bit arrays that do as documented, with pages of a positive size: whatever
    -- `mark_valid`, `allocate`, `allocate_contiguous`, `allocate_frame` and `deallocate_frame`
    -- make of a new allocator without a panic, each valid bit stands for a frame that lies in
    -- the range as a whole, and the range is the one that `new` was given.
    pub Reachable-WellFormed :
        (elts : ℕ → ℕ) (n : ℕ) (range : PhysFrameRange) (a : BitmapAllocator B)
        → Reachable elts n range a
        → WellFormed b size a × (a.range ≡ range)
    Reachable-WellFormed elts n range a (made _ e) = new-WellFormed elts n range a e
    Reachable-WellFormed elts n range a (next before _ r s) =
        let (wf, p) = Reachable-WellFormed elts n range before r in
        let (wf', q) = Step-WellFormed before a s wf in (wf', q ∙ p)
