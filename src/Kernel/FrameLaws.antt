-- ===== src/Kernel/FrameLaws.antt =====
-- Frames of the allocator: the ones that are in its range, and the ones that it hands out.
use native.Mathlib.Nat.{mul-div_cancel}
use not_an_oak_fork.Base.{
  ok-inj, some-inj, ==_iff, ◌==◌, ℕ, suc, ◌+◌, ◌*◌, ◌/◌, ◌≤◌, ◌<◌, ◌≡◌, ◌≢◌, refl, sym, ap, subst,
  ◌∙◌, inl, inr, Bool, true, false, ◌&&◌, not, Bool-cases, Option-cases, Option, some, none, Result,
  ok, arith, le→ltb_false, lt→ltb,
}
use not_an_oak_fork.Kernel.Bits.{BitArray, IsBitArray}
use not_an_oak_fork.Kernel.Frames.{
  BitmapAllocator, PhysFrame, frame, frame_idx, available, allocate_first, allocate_frame, bit_at,
  free_bit, deallocate_frame,
}

and_not-eq-true : (v w : Bool) → (v && not w) ≡ true → (v ≡ true) × (w ≡ false)
and_not-eq-true true true h = cc
and_not-eq-true true false h = (refl, refl)
and_not-eq-true false w h = cc

module _ {B : Type 0} (b : BitArray B) (size : ℕ) where
  -- A valid bit stands for a frame that lies in the range, up to its end.
  abbrev pub WellFormed : BitmapAllocator B → Type 0
  WellFormed a =
      (i : ℕ) → i < b.len → b.get i a.valid ≡ true → a.range.start + suc i * size ≤ a.range.end

  abbrev pub IsAvailable : BitmapAllocator B → ℕ → Type 0
  IsAvailable a i = (i < b.len) × (b.get i a.valid ≡ true) × (b.get i a.allocated ≡ false)

  -- The two allocators differ at most in the bit that says whether frame `i` is in use.
  abbrev pub AgreeBut : ℕ → BitmapAllocator B → BitmapAllocator B → Type 0
  AgreeBut i a c =
      (c.valid ≡ a.valid)
      × (c.range ≡ a.range)
      × ((j : ℕ) → j < b.len → i ≢ j → b.get j c.allocated ≡ b.get j a.allocated)

  pub data Hands (a : BitmapAllocator B)
      : Result (Option PhysFrame × BitmapAllocator B) → Type 0 where
    exhausted : ((i : ℕ) → ¬ IsAvailable a i) → Hands a (ok (none, a))
    handed :
        (i : ℕ) (c : BitmapAllocator B)
        → IsAvailable a i
        → ((j : ℕ) → j < i → ¬ IsAvailable a j)
        → b.get i c.allocated ≡ true
        → AgreeBut i a c
        → Hands a (ok (some (a.range.start + i * size), c))

  -- Freeing frame `f` of `c` gives an allocator with the same bits as `a`.
  abbrev pub GivesBack : BitmapAllocator B → BitmapAllocator B → PhysFrame → Type 0
  GivesBack a c f =
      (d : BitmapAllocator B) × (deallocate_frame b size f c ≡ ok d)
      × (d.valid ≡ a.valid)
      × (d.range ≡ a.range)
      × ((j : ℕ) → j < b.len → b.get j d.allocated ≡ b.get j a.allocated)

  module _ (l : IsBitArray B b) where
    pub IsAvailable-available :
        (a : BitmapAllocator B) (i : ℕ)
        → i < b.len
        → b.get i (available b size a) ≡ true
        → IsAvailable a i
    unfolding available
    IsAvailable-available a i h e =
        let (v, w) = and_not-eq-true (b.get i a.valid) (b.get i a.allocated) (
          ap (λ w. b.get i a.valid && w) (sym (l.get-complement i a.allocated h))
          ∙ sym (l.get-bitand i a.valid (b.complement a.allocated) h)
          ∙ e) in
        (h, v, w)

    pub available-IsAvailable :
        (a : BitmapAllocator B) (i : ℕ) → IsAvailable a i → b.get i (available b size a) ≡ true
    unfolding available
    available-IsAvailable a i (h, v, w) =
        rw
          (
            l.get-bitand i a.valid (b.complement a.allocated) h,
            l.get-complement i a.allocated h,
            v,
            w,
          )
          refl

    pub frame-some :
        (a : BitmapAllocator B) (i : ℕ)
        → a.range.start + i * size ≤ a.range.end
        → frame b size a i ≡ some (a.range.start + i * size)
    unfolding frame
    frame-some a i h = rw (le→ltb_false a.range.end (a.range.start + i * size) (omega arith)) refl

    pub frame_idx-frame :
        (a : BitmapAllocator B) (i : ℕ)
        → 0 < size
        → a.range.start + i * size ≤ a.range.end
        → frame_idx b size a (a.range.start + i * size) ≡ some i
    unfolding frame_idx
    frame_idx-frame a i p h =
        rw
          (
            le→ltb_false (a.range.start + i * size) a.range.start (omega arith),
            le→ltb_false a.range.end (a.range.start + i * size) (omega arith),
          )
          (ap some (ap (λ n. n / size) (omega arith) ∙ mul-div_cancel i p))

    pub unset-not_available :
        (a : BitmapAllocator B) (i : ℕ) → b.get i (available b size a) ≡ false → ¬ IsAvailable a i
    unset-not_available a i e g = let t = available-IsAvailable a i g in cc

    allocate_first-Hands :
        (a : BitmapAllocator B) (i : ℕ)
        → WellFormed a
        → IsAvailable a i
        → ((j : ℕ) → j < i → ¬ IsAvailable a j)
        → Hands a (allocate_first b size (some i) a)
    unfolding allocate_first
    allocate_first-Hands a i wf g before =
        rw (lt→ltb i b.len g.0, frame-some a i (omega (arith, wf i g.0 g.1)))
          (Hands.handed i record a { allocated = b.set i true a.allocated } g before
            (l.get-set_self i true a.allocated g.0)
            (refl, refl, λ j h n. l.get-set_ne i j true a.allocated g.0 h n))

    -- From an allocator whose valid bits stand for frames in its range, over bit arrays that do
    -- as documented, `allocate_frame` never panics. Either no frame can be handed out, and it
    -- returns none and changes nothing; or it returns the lowest frame that is valid and not in
    -- use, which is in use from then on, and no other bit changes.
    pub allocate_frame-Hands :
        (a : BitmapAllocator B) → WellFormed a → Hands a (allocate_frame b size a)
    unfolding allocate_frame allocate_first
    allocate_frame-Hands a wf = elim (Option-cases (b.first_one (available b size a))) [
      | inl e ↦
          subst (λ o. Hands a (allocate_first b size o a)) (sym e)
            (Hands.exhausted
              λ i g. unset-not_available a i (l.first_one-none (available b size a) e i g.0) g)
      | inr (i, e) ↦
          let (h, set, before) = l.first_one-some (available b size a) i e in
          let g = IsAvailable-available a i h set in
          subst (λ o. Hands a (allocate_first b size o a)) (sym e)
            (allocate_first-Hands a i wf g (λ j p. unset-not_available a j (before j p)))
    ]

    free_bit-ok :
        (c : BitmapAllocator B) (i : ℕ)
        → i < b.len
        → b.get i c.valid ≡ true
        → b.get i c.allocated ≡ true
        → free_bit b size (some i) c ≡ ok record c { allocated = b.set i false c.allocated }
    unfolding free_bit bit_at
    free_bit-ok c i h v w = rw (lt→ltb i b.len h, v, w) refl

    given_back :
        (a c : BitmapAllocator B) (i : ℕ)
        → 0 < size
        → WellFormed a
        → IsAvailable a i
        → b.get i c.allocated ≡ true
        → AgreeBut i a c
        → GivesBack a c (a.range.start + i * size)
    unfolding deallocate_frame
    given_back a c i p wf g t (v, r, same) =
        let idx = frame_idx-frame c i p (rw r (omega (arith, wf i g.0 g.1))) in
        let d = record c { allocated = b.set i false c.allocated } in
        (
          d,
          subst (λ q. deallocate_frame b size (q.start + i * size) c ≡ ok d) r
              (subst (λ o. free_bit b size o c ≡ ok d) (sym idx)
                (free_bit-ok c i g.0 (rw v g.1) t)),
          v,
          r,
          λ j h. elim (Bool-cases (i == j)) [
            | inl e ↦ rw (← (==_iff i j).0 e) (l.get-set_self i false c.allocated g.0 ∙ sym g.2)
            | inr e ↦
                l.get-set_ne i j false c.allocated g.0 h (ground arith) ∙ same j h (ground arith)
          ],
        )

    deallocate_frame-Hands :
        (a c : BitmapAllocator B) (f : PhysFrame)
        (r : Result (Option PhysFrame × BitmapAllocator B))
        → 0 < size
        → WellFormed a
        → Hands a r
        → r ≡ ok (some f, c)
        → GivesBack a c f
    unfolding deallocate_frame
    deallocate_frame-Hands a c f _ p wf (exhausted gone) e = cc
    deallocate_frame-Hands a c f _ p wf (handed i c' g before t (v, r, same)) e =
        let h = ok-inj e in
        rw (← some-inj (ap (λ q. q.0) h), ← ap (λ q. q.1) h)
          (given_back a c' i p wf g t (v, r, same))

    -- Over bit arrays that do as documented, with pages of a positive size and an allocator
    -- whose valid bits stand for frames in its range: freeing the frame that `allocate_frame`
    -- has returned does not panic and gives back an allocator with the same range and the same
    -- bits as before.
    pub deallocate_frame-allocate_frame :
        (a c : BitmapAllocator B) (f : PhysFrame)
        → 0 < size
        → WellFormed a
        → allocate_frame b size a ≡ ok (some f, c)
        → GivesBack a c f
    deallocate_frame-allocate_frame a c f p wf e =
        deallocate_frame-Hands a c f (allocate_frame b size a) p wf (allocate_frame-Hands a wf) e
