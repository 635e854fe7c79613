-- ===== src/Channel/Chunks.antt =====
-- `bytes_into_frames`: the bodies make up the data, and the flags mark its two ends.
use not_an_oak_fork.Base.{
  ℕ, zero, suc, ◌≤◌, ◌<◌, ◌≡◌, refl, ap, ◌∙◌, true, false, ◌⊎◌, inl, inr, List, [], ◌∷◌, ◌++◌, map,
  ok, arith, length, take, drop, length-take, length-drop, take-append-drop,
}
use not_an_oak_fork.Channel.Frame.{
  Frame, max_body_size, chunks_of, set_first_start, set_last_end, plain_frame, bytes_into_frames,
}

abbrev pub bodies : List Frame → List ℕ
bodies [] = []
bodies (f ∷ fs) = f.body ++ bodies fs

abbrev pub Fits : List ℕ → Type 0
Fits xs = (0 < length xs) × (length xs ≤ max_body_size)

-- The frames behind the first: none starts a message, the last one alone ends it.
abbrev pub IsTail : List Frame → Type 0
IsTail [] = ⊥
IsTail (f ∷ []) = (f.flags.start ≡ false) × (f.flags.end ≡ true) × Fits f.body
IsTail (f ∷ g ∷ fs) =
    (f.flags.start ≡ false) × (f.flags.end ≡ false) × Fits f.body × IsTail (g ∷ fs)

-- A whole message: one frame with both flags, or a full first frame and a tail.
abbrev pub IsMessage : List Frame → Type 0
IsMessage [] = ⊥
IsMessage (f ∷ []) = (f.flags.start ≡ true) × (f.flags.end ≡ true) × Fits f.body
IsMessage (f ∷ g ∷ fs) =
    (f.flags.start ≡ true)
    × (f.flags.end ≡ false)
    × (length f.body ≡ max_body_size)
    × IsTail (g ∷ fs)

abbrev concat : List (List ℕ) → List ℕ
concat [] = []
concat (x ∷ xs) = x ++ concat xs

abbrev AllFit : List (List ℕ) → Type 0
AllFit [] = Unit {0}
AllFit (x ∷ xs) = Fits x × AllFit xs

chunks_of-concat :
    (fuel n : ℕ) (xs : List ℕ) → 0 < n → length xs ≤ fuel → concat (chunks_of fuel n xs) ≡ xs
unfolding chunks_of
chunks_of-concat zero n [] p h = refl
chunks_of-concat zero n (x ∷ xs) p h = absurd (omega arith)
chunks_of-concat (suc fuel) n [] p h = refl
chunks_of-concat (suc fuel) n (x ∷ xs) p h =
    ap (λ t. take n (x ∷ xs) ++ t)
      (chunks_of-concat fuel n (drop n (x ∷ xs)) p (omega (arith, length-drop n (x ∷ xs))))
    ∙ take-append-drop n (x ∷ xs)

chunks_of-AllFit : (fuel : ℕ) (xs : List ℕ) → AllFit (chunks_of fuel max_body_size xs)
unfolding chunks_of
chunks_of-AllFit zero xs = tt
chunks_of-AllFit (suc fuel) [] = tt
chunks_of-AllFit (suc fuel) (x ∷ xs) = (
  omega (arith, length-take max_body_size (x ∷ xs)),
  chunks_of-AllFit fuel (drop max_body_size (x ∷ xs)),
)

bodies-plain : (bs : List (List ℕ)) → bodies (map plain_frame bs) ≡ concat bs
bodies-plain [] = refl
bodies-plain (b ∷ bs) = ap (λ t. b ++ t) (bodies-plain bs)

bodies-set_last_end : (fs : List Frame) → bodies (set_last_end fs) ≡ bodies fs
unfolding set_last_end
bodies-set_last_end [] = refl
bodies-set_last_end (f ∷ []) = refl
bodies-set_last_end (f ∷ g ∷ fs) = ap (λ t. f.body ++ t) (bodies-set_last_end (g ∷ fs))

bodies-set_first_start : (fs : List Frame) → bodies (set_first_start fs) ≡ bodies fs
unfolding set_first_start
bodies-set_first_start [] = refl
bodies-set_first_start (f ∷ fs) = refl

set_last_end-IsTail :
    (b : List ℕ) (bs : List (List ℕ))
    → AllFit (b ∷ bs)
    → IsTail (set_last_end (map plain_frame (b ∷ bs)))
unfolding set_last_end
set_last_end-IsTail b [] h = (refl, refl, h.0)
set_last_end-IsTail b (d ∷ []) h = (refl, refl, h.0, set_last_end-IsTail d [] h.1)
set_last_end-IsTail b (d ∷ e ∷ bs) h = (refl, refl, h.0, set_last_end-IsTail d (e ∷ bs) h.1)

mark-IsMessage :
    (b : List ℕ) (bs : List (List ℕ))
    → Fits b
    → AllFit bs
    → ((bs ≡ []) ⊎ (length b ≡ max_body_size))
    → IsMessage (set_last_end (set_first_start (map plain_frame (b ∷ bs))))
unfolding set_last_end set_first_start
mark-IsMessage b [] h hs full = (refl, refl, h)
mark-IsMessage b (d ∷ bs) h hs (inl e) = cc
mark-IsMessage b (d ∷ []) h hs (inr full) = (refl, refl, full, set_last_end-IsTail d [] hs)
mark-IsMessage b (d ∷ e ∷ bs) h hs (inr full) =
    (refl, refl, full, set_last_end-IsTail d (e ∷ bs) hs)

-- A chunk that is not the last one is full.
chunks_of-full :
    (fuel n : ℕ) (xs ys : List ℕ)
    → ys ≡ drop n xs
    → (chunks_of fuel n ys ≡ []) ⊎ (length (take n xs) ≡ n)
unfolding chunks_of
chunks_of-full zero n xs ys e = inl refl
chunks_of-full (suc fuel) n xs [] e = inl refl
chunks_of-full (suc fuel) n xs (y ∷ ys) e =
    inr (omega (arith, ap length e, length-take n xs, length-drop n xs))

-- Data that is not empty is cut into frames whose bodies, joined in order, are the data. The
-- first frame alone has START and the last alone END; each body holds between one byte and the
-- maximum, and the first is full unless it is the only one.
pub bytes_into_frames-IsMessage :
    (x : ℕ) (xs : List ℕ)
    → (fs : List Frame) × (bytes_into_frames (x ∷ xs) ≡ ok fs) × IsMessage fs × (bodies fs ≡ x ∷ xs)
unfolding bytes_into_frames
bytes_into_frames-IsMessage x xs = (
  set_last_end (set_first_start (map plain_frame (first ∷ rest))),
  refl,
  mark-IsMessage first rest (omega (arith, length-take max_body_size (x ∷ xs)))
      (chunks_of-AllFit (length xs) (drop max_body_size (x ∷ xs)))
      (chunks_of-full (length xs) max_body_size (x ∷ xs) _ refl),
  bodies-set_last_end (set_first_start (map plain_frame (first ∷ rest)))
      ∙ bodies-set_first_start (map plain_frame (first ∷ rest))
      ∙ bodies-plain (first ∷ rest)
      ∙ chunks_of-concat (suc (length xs)) max_body_size (x ∷ xs) (omega arith) (omega arith),
)
  where
    first : List ℕ
    first = take max_body_size (x ∷ xs)

    rest : List (List ℕ)
    rest = chunks_of (length xs) max_body_size (drop max_body_size (x ∷ xs))
