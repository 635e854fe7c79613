-- ===== src/Kernel/PhysicalLaws.antt =====
-- Small frames of oak_restricted_kernel/src/mm/frame_allocator.rs lie in a large frame that is in
-- use.
use not_an_oak_fork.Base.{
  ℕ, zero, suc, ◌+◌, ◌-◌, ◌*◌, ◌/◌, ◌%◌, ◌≤◌, ◌<◌, ◌≡◌, refl, ap, subst, true, ◌==◌, Option, some,
  none, Result, ok, panic, unwrap, ◌>>=◌, arith, le→ltb_false,
}
use not_an_oak_fork.Kernel.Bits.{BitArray, IsBitArray}
use not_an_oak_fork.Kernel.Frames.{
  PhysFrame, BitmapAllocator, new, mark_valid, frame_idx, fill_valid, fill_slice, allocate_frame,
}
use not_an_oak_fork.Kernel.FrameLaws.{
  WellFormed, IsAvailable, AgreeBut, Hands, exhausted, handed, allocate_frame-Hands,
}
use not_an_oak_fork.Kernel.Physical.{
  size_2mib, size_4kib, from_start_address, PhysicalMemoryAllocator, break_frame,
  get_or_insert_small, allocate_small_frame,
}

module _ {B S : Type 0} (b : BitArray B) (s : BitArray S) (elts : ℕ → ℕ) where
  -- The frames of the small allocator make up the large frame `i`, which is in use.
  pub record Breaks (large : BitmapAllocator B) (small : BitmapAllocator S) (i : ℕ) : Type 0 where
    pub in_bounds : i < b.len
    pub in_use : b.get i large.allocated ≡ true
    pub small_start : small.range.start ≡ large.range.start + i * size_2mib
    pub small_end : small.range.end ≡ small.range.start + size_2mib
    pub small-WellFormed : WellFormed s size_4kib small

  abbrev pub Backed : BitmapAllocator B → Option (BitmapAllocator S) → Type 0
  Backed large none = Unit {0}
  Backed large (some small) = (i : ℕ) × Breaks large small i

  pub record Sound (p : PhysicalMemoryAllocator B S) : Type 0 where
    pub large-WellFormed : WellFormed b size_2mib p.large_frames
    pub aligned : p.large_frames.range.start % size_2mib ≡ 0
    pub backed : Backed p.large_frames p.small_frames

  -- What asking for a small frame comes to.
  pub data Serves (p : PhysicalMemoryAllocator B S)
      : Result (Option PhysFrame × PhysicalMemoryAllocator B S) → Type 0 where
    -- No large frame has been broken up, and none is left: a panic.
    none_to_break :
        p.small_frames ≡ none
        → ((i : ℕ) → ¬ IsAvailable b size_2mib p.large_frames i)
        → Serves p panic
    -- A large frame is broken up, and its first small frame handed out.
    broken :
        (i : ℕ) (large : BitmapAllocator B) (small : BitmapAllocator S)
        → p.small_frames ≡ none
        → IsAvailable b size_2mib p.large_frames i
        → AgreeBut b size_2mib i p.large_frames large
        → Breaks large small i
        → Sound record { large_frames = large; small_frames = some small }
        → Serves p (
            ok (
              some (p.large_frames.range.start + i * size_2mib),
              record { large_frames = large; small_frames = some small },
            ))
    -- All small frames are in use, and no further large frame is broken up.
    used_up :
        (small : BitmapAllocator S)
        → p.small_frames ≡ some small
        → ((j : ℕ) → ¬ IsAvailable s size_4kib small j)
        → Serves p (ok (none, p))
    -- A small frame that is not in use is handed out.
    served :
        (j : ℕ) (small small' : BitmapAllocator S)
        → p.small_frames ≡ some small
        → IsAvailable s size_4kib small j
        → AgreeBut s size_4kib j small small'
        → Sound record p { small_frames = some small' }
        → Serves p
            (ok (some (small.range.start + j * size_4kib), record p { small_frames = some small' }))

  module _ (lb : IsBitArray B b) (ls : IsBitArray S s) (bits : s.len ≡ 512)
      (words : elts 512 ≡ 8) where
    abbrev unused : PhysFrame → BitmapAllocator S
    unused f = record {
      allocated = s.zero_bits;
      valid = s.fill 0 512 true s.zero_bits;
      range = record { start = f; end = f + size_2mib };
    }

    from_start_address-ok : (a : ℕ) → a % size_4kib ≡ 0 → from_start_address size_4kib a ≡ some a
    unfolding from_start_address
    from_start_address-ok a h = let e : (a % 4096 == 0) ≡ true = ground (arith, h) in rw e refl

    -- a new allocator of the small frames of `f`
    abbrev invalid : PhysFrame → BitmapAllocator S
    invalid f = record {
      allocated = s.zero_bits;
      valid = s.zero_bits;
      range = record { start = f; end = f + size_2mib };
    }

    new-invalid :
        (f : PhysFrame)
        → new s size_4kib elts 8 record { start = f; end = f + size_2mib } ≡ ok (invalid f)
    unfolding new
    new-invalid f =
        let count : (f + 2097152 - f) / 4096 ≡ 512 = omega arith in
        rw (le→ltb_false (f + 2097152) f (omega arith)) (rw count (rw words refl))

    frame_idx-ok :
        (a : BitmapAllocator S) (g n : ℕ)
        → a.range.start ≤ g
        → g ≤ a.range.end
        → (g - a.range.start) / size_4kib ≡ n
        → frame_idx s size_4kib a g ≡ some n
    unfolding frame_idx
    frame_idx-ok a g n lo hi e =
        rw (le→ltb_false g a.range.start lo) (rw (le→ltb_false a.range.end g hi) (ap some e))

    mark_valid-unused :
        (f : PhysFrame)
        → mark_valid s size_4kib record { start = f; end = f + size_2mib } true (invalid f)
          ≡ ok (unused f)
    unfolding mark_valid fill_valid fill_slice
    mark_valid-unused f =
        rw (frame_idx-ok (invalid f) f 0 (omega arith) (omega arith) (omega arith)) (
          rw
            (frame_idx-ok (invalid f) (f + size_2mib) 512 (omega arith) (omega arith) (omega arith))
            (rw bits refl))

    break_frame-unused :
        (f : PhysFrame) → f % size_4kib ≡ 0 → break_frame b s elts f ≡ ok (unused f)
    unfolding break_frame
    break_frame-unused f h = rw (from_start_address-ok f h) (
        rw (from_start_address-ok (f + size_2mib) (omega (arith, h)))
          (rw (new-invalid f) (mark_valid-unused f)))

    unused-first : (f : PhysFrame) → IsAvailable s size_4kib (unused f) 0
    unused-first f =
        let in_range : 0 < s.len = omega (arith, bits) in
        (
          in_range,
          ls.get-fill 0 0 512 true s.zero_bits in_range (omega (arith, bits)),
          ls.get-zero_bits 0 in_range,
        )

    unused-WellFormed : (f : PhysFrame) → WellFormed s size_4kib (unused f)
    unused-WellFormed f i h e = omega (arith, bits)

    -- Taking a frame out of a small allocator leaves it one of the same frames.
    Breaks-AgreeBut :
        (large : BitmapAllocator B) (small small' : BitmapAllocator S) (i j : ℕ)
        → AgreeBut s size_4kib j small small'
        → Breaks large small i
        → Breaks large small' i
    Breaks-AgreeBut large small small' i j (v, r, same) k = record {
      in_bounds = k.in_bounds;
      in_use = k.in_use;
      small_start = rw r k.small_start;
      small_end = rw r k.small_end;
      small-WellFormed = λ n h e. rw r (k.small-WellFormed n h (rw (← v) e));
    }

    unused-Breaks :
        (p : PhysicalMemoryAllocator B S) (i : ℕ) (large : BitmapAllocator B)
        → i < b.len
        → b.get i large.allocated ≡ true
        → AgreeBut b size_2mib i p.large_frames large
        → Breaks large (unused (p.large_frames.range.start + i * size_2mib)) i
    unused-Breaks p i large h used (v, r, same) = record {
      in_bounds = h;
      in_use = used;
      small_start = rw r refl;
      small_end = refl;
      small-WellFormed = unused-WellFormed _;
    }

    Sound-with :
        (p : PhysicalMemoryAllocator B S) (i j : ℕ) (large : BitmapAllocator B)
        (small : BitmapAllocator S)
        → Sound p
        → AgreeBut b size_2mib j p.large_frames large
        → Breaks large small i
        → Sound record { large_frames = large; small_frames = some small }
    Sound-with p i j large small sound (v, r, same) k = record {
      large-WellFormed = λ n h e. rw r (sound.large-WellFormed n h (rw (← v) e));
      aligned = rw r sound.aligned;
      backed = (i, k);
    }

    broken-Serves :
        (p : PhysicalMemoryAllocator B S) (i : ℕ) (large : BitmapAllocator B)
        (r : Result (Option PhysFrame × BitmapAllocator S))
        → Sound p
        → p.small_frames ≡ none
        → IsAvailable b size_2mib p.large_frames i
        → b.get i large.allocated ≡ true
        → AgreeBut b size_2mib i p.large_frames large
        → Hands s size_4kib (unused (p.large_frames.range.start + i * size_2mib)) r
        → Serves p (r >>= λ q. ok (q.0, record { large_frames = large; small_frames = some q.1 }))
    broken-Serves p i large _ sound none_yet free used agree (exhausted gone) =
        absurd (gone 0 (unused-first (p.large_frames.range.start + i * size_2mib)))
    broken-Serves p i large _ sound none_yet free used agree (handed zero c g before t others) =
        let k = Breaks-AgreeBut large _ c i 0 others (unused-Breaks p i large free.0 used agree) in
        let f = p.large_frames.range.start + i * size_2mib in
        let first : f ≡ f + 0 * size_4kib = omega arith in
        subst (λ n. Serves p (ok (some n, record { large_frames = large; small_frames = some c })))
          first
          (Serves.broken i large c none_yet free agree k (Sound-with p i i large c sound agree k))
    broken-Serves p i large _ sound none_yet free used agree (handed (suc j) c g before t others) =
        absurd (before 0 (omega arith) (unused-first (p.large_frames.range.start + i * size_2mib)))

    served-Serves :
        (p : PhysicalMemoryAllocator B S) (small : BitmapAllocator S) (i : ℕ)
        (r : Result (Option PhysFrame × BitmapAllocator S))
        → Sound p
        → p.small_frames ≡ some small
        → Breaks p.large_frames small i
        → Hands s size_4kib small r
        → Serves p
            (r >>= λ q. ok (q.0, record { large_frames = p.large_frames; small_frames = some q.1 }))
    served-Serves p small i _ sound e k (exhausted gone) =
        subst
          (λ o. Serves p (ok (none, record { large_frames = p.large_frames; small_frames = o }))) e
          (Serves.used_up small e gone)
    served-Serves p small i _ sound e k (handed j c g before t others) =
        let k' = Breaks-AgreeBut p.large_frames small c i j others k in
        Serves.served j small c e g others
          (Sound-with p i i p.large_frames c sound (refl, refl, λ n h m. refl) k')

    abbrev broken_up :
        Option PhysFrame × BitmapAllocator B → Result (BitmapAllocator S × BitmapAllocator B)
    broken_up (frame, large) = do
      f ← unwrap frame
      small ← break_frame b s elts f
      ok (small, large)

    large-Serves :
        (p : PhysicalMemoryAllocator B S) (r : Result (Option PhysFrame × BitmapAllocator B))
        → Sound p
        → p.small_frames ≡ none
        → Hands b size_2mib p.large_frames r
        → Serves p (
            (r >>= broken_up) >>= λ x. allocate_frame s size_4kib x.0 >>= λ t.
            ok (t.0, record { large_frames = x.1; small_frames = some t.1 }))
    large-Serves p _ sound none_yet (exhausted gone) = Serves.none_to_break none_yet gone
    large-Serves p _ sound none_yet (handed i c g before t others) =
        let f = p.large_frames.range.start + i * size_2mib in
        rw (break_frame-unused f (omega (arith, sound.aligned))) (
          broken-Serves p i c (allocate_frame s size_4kib (unused f)) sound none_yet g t others
            (allocate_frame-Hands s size_4kib ls (unused f) (unused-WellFormed f)))

    with-Serves :
        (p : PhysicalMemoryAllocator B S) (o : Option (BitmapAllocator S))
        → Sound p
        → p.small_frames ≡ o
        → Backed p.large_frames o
        → Serves p (
            get_or_insert_small b s elts o p.large_frames >>= λ x.
            allocate_frame s size_4kib x.0 >>= λ t.
            ok (t.0, record { large_frames = x.1; small_frames = some t.1 }))
    unfolding get_or_insert_small
    with-Serves p none sound e u =
        large-Serves p (allocate_frame b size_2mib p.large_frames) sound e
          (allocate_frame-Hands b size_2mib lb p.large_frames sound.large-WellFormed)
    with-Serves p (some small) sound e (i, k) =
        served-Serves p small i (allocate_frame s size_4kib small) sound e k
          (allocate_frame-Hands s size_4kib ls small k.small-WellFormed)

    pub allocate_small_frame-Serves :
        (p : PhysicalMemoryAllocator B S) → Sound p → Serves p (allocate_small_frame b s elts p)
    unfolding allocate_small_frame
    allocate_small_frame-Serves p sound = with-Serves p p.small_frames sound refl sound.backed
