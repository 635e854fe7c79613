-- ===== src/Kernel/LargestLaws.antt =====
-- The streaks of set bits that `largest_available` goes through, and the longest of them.
use not_an_oak_fork.Base.{
  ℕ, zero, suc, ◌+◌, ◌≤◌, ◌<◌, ◌≡◌, refl, sym, subst, ◌∙◌, ◌⊎◌, inl, inr, true, false, Bool-cases,
  Option, some, none, List, [], ◌∷◌, arith, leb, leb→le, ==_iff, ◌==◌, some-inj,
}
use not_an_oak_fork.Kernel.Bits.{BitArray}
use not_an_oak_fork.Kernel.Largest.{
  Streak, streak_at, scan_streaks, key, longer, longest, max_by_key, iter_ones,
}

pub data Among (s : Streak) : List Streak → Type 0 where
  here : (t : Streak) (rest : List Streak) → s ≡ t → Among s (t ∷ rest)
  there : (t : Streak) (rest : List Streak) → Among s rest → Among s (t ∷ rest)

leb_false→le : (a c : ℕ) → leb a c ≡ false → c ≤ a
leb_false→le a c h = ground arith

longer-bounds : (s t : Streak) → (key s ≤ key (longer s t)) × (key t ≤ key (longer s t))
unfolding longer
longer-bounds s t = elim (Bool-cases (leb (key s) (key t))) [
  | inl y ↦ rw y (leb→le (key s) (key t) y, omega arith)
  | inr n ↦ rw n (omega arith, leb_false→le (key s) (key t) n)
]

longest-bounds :
    (s : Streak) (rest : List Streak)
    → (key s ≤ key (longest s rest)) × ((t : Streak) → Among t rest → key t ≤ key (longest s rest))
unfolding longest
longest-bounds s [] = (omega arith, λ t m. elim m [ ])
longest-bounds s (u ∷ rest) =
    let (p, q) = longest-bounds (longer s u) rest in
    let (x, y) = longer-bounds s u in
    (omega arith, λ t m. elim m [ here _ _ e ↦ rw e (omega arith) | there _ _ n ↦ q t n ])

-- A property of all streaks is one of the longest.
longest-All :
    (P : Streak → Type 0) (s : Streak) (rest : List Streak)
    → P s
    → ((t : Streak) → Among t rest → P t)
    → P (longest s rest)
unfolding longest longer
longest-All P s [] p h = p
longest-All P s (u ∷ rest) p h =
    longest-All P (longer s u) rest
      (elim (Bool-cases (leb (key s) (key u))) [
        | inl y ↦ rw y (h u (Among.here u rest refl))
        | inr n ↦ rw n p
      ])
      (λ t m. h t (Among.there u rest m))

pub max_by_key-some :
    (list : List Streak) (s : Streak)
    → max_by_key list ≡ some s
    → (P : Streak → Type 0) → ((t : Streak) → Among t list → P t)
    → P s × ((t : Streak) → Among t list → key t ≤ key s)
unfolding max_by_key
max_by_key-some [] s e P h = cc
max_by_key-some (u ∷ rest) s e P h =
    let q : longest u rest ≡ s = some-inj e in
    let (x, y) = longest-bounds u rest in
    rw (← q) (
      longest-All P u rest (h u (Among.here u rest refl)) (λ t m. h t (Among.there u rest m)),
      λ t m. elim m [ here _ _ e ↦ rw e x | there _ _ n ↦ y t n ],
    )

pub max_by_key-none : (list : List Streak) (t : Streak) → max_by_key list ≡ none → ¬ Among t list
unfolding max_by_key
max_by_key-none [] t e m = elim m [ ]
max_by_key-none (u ∷ rest) t e m = cc

module _ {B : Type 0} (b : BitArray B) (size : ℕ) (x : B) where
  -- the bits of a streak are set
  abbrev pub Sound : Streak → Type 0
  Sound s =
      (s.start_idx ≤ s.end_idx) × ((j : ℕ) → s.start_idx ≤ j → j ≤ s.end_idx → b.get j x ≡ true)

  -- what the scan remembers at bit `i`
  abbrev pub Remembers : Option Streak → ℕ → Type 0
  Remembers state i = (s : Streak) → state ≡ some s → Sound s × (s.end_idx < i)

  streak_at-Sound :
      (state : Option Streak) (i : ℕ)
      → Remembers state i
      → b.get i x ≡ true
      → Sound (streak_at state i) × ((streak_at state i).end_idx ≡ i)
  unfolding streak_at
  streak_at-Sound none i h t =
      ((omega arith, λ j p q. subst (λ k. b.get k x ≡ true) (omega arith) t), refl)
  streak_at-Sound (some s) i h t =
      let ((p, set), q) = h s refl in
      elim (Bool-cases (i == (s.end_idx + 1))) [
        | inl y ↦
            let e = (==_iff i (s.end_idx + 1)).0 y in
            rw y (
              (
                omega arith,
                λ j c d. elim (Bool-cases (i == j)) [
                  | inl z ↦ rw (← (==_iff i j).0 z) t
                  | inr z ↦ set j c (ground arith)
                ],
              ),
              refl,
            )
        | inr n ↦ rw n ((omega arith, λ j c d. subst (λ k. b.get k x ≡ true) (omega arith) t), refl)
      ]

  Remembers-next :
      (state : Option Streak) (i : ℕ)
      → Remembers state i
      → b.get i x ≡ true
      → Remembers (some (streak_at state i)) (suc i)
  Remembers-next state i h t s e =
      let (p, q) = streak_at-Sound state i h t in rw (← some-inj e) (p, omega (arith, q))

  pub scan-Sound :
      (n i : ℕ) (state : Option Streak)
      → Remembers state i
      → (t : Streak) → Among t (scan_streaks state (iter_ones b size n i x))
      → Sound t × (t.end_idx < i + n)
  unfolding scan_streaks iter_ones
  scan-Sound zero i state h t m = elim m [ ]
  scan-Sound (suc n) i state h t m = elim (Bool-cases (b.get i x)) [
    | inl y ↦
        let (p, q) = streak_at-Sound state i h y in
        elim (rw y at m) [
          | here _ _ e ↦ rw e (p, omega (arith, q))
          | there _ _ r ↦
              let (u, v) =
                scan-Sound n (suc i) (some (streak_at state i)) (Remembers-next state i h y) t r in
              (u, omega arith)
        ]
    | inr z ↦
        let (u, v) =
          scan-Sound n (suc i) state (λ s e. let (c, d) = h s e in (c, omega arith)) t
            (rw z at m) in
        (u, omega arith)
  ]

  -- The scan has seen what is to be seen of a streak of set bits from `k` on.
  abbrev pub Follows : Option Streak → ℕ → ℕ → Type 0
  Follows state i k =
      (i ≤ k) ⊎ ((s : Streak) × (state ≡ some s) × (s.end_idx + 1 ≡ i) × (s.start_idx ≤ k))

  streak_at-start :
      (state : Option Streak) (i k : ℕ)
      → Remembers state i
      → Follows state i k
      → k ≤ i
      → (streak_at state i).start_idx ≤ k
  unfolding streak_at
  streak_at-start none i k h (inl p) q = p
  streak_at-start none i k h (inr (s, e, r, t)) q = cc
  streak_at-start (some s) i k h (inl p) q =
      let (sound, before) = h s refl in
      elim (Bool-cases (i == (s.end_idx + 1))) [
        | inl y ↦ rw y (omega (arith, sound.0, before))
        | inr n ↦ rw n p
      ]
  streak_at-start (some s) i k h (inr (u, e, r, t)) q =
      let same = some-inj e in
      let y : (i == (s.end_idx + 1)) ≡ true = (==_iff i (s.end_idx + 1)).1 (rw same (sym r)) in
      rw y (rw same t)

  Follows-next :
      (state : Option Streak) (i k : ℕ)
      → Remembers state i
      → Follows state i k
      → b.get i x ≡ true
      → Follows (some (streak_at state i)) (suc i) k
  Follows-next state i k h f y = elim (Bool-cases (leb k i)) [
    | inl c ↦
        let (_, ends) = streak_at-Sound state i h y in
        inr (
          streak_at state i,
          refl,
          omega (arith, ends),
          streak_at-start state i k h f (leb→le k i c),
        )
    | inr c ↦ inl (ground arith)
  ]

  pub scan-Follows :
      (n i : ℕ) (state : Option Streak) (k e : ℕ)
      → Remembers state i
      → Follows state i k
      → k ≤ e
      → i ≤ e
      → e < i + n
      → ((j : ℕ) → k ≤ j → j ≤ e → b.get j x ≡ true)
      → (t : Streak) × Among t (scan_streaks state (iter_ones b size n i x))
        × (t.end_idx ≡ e)
        × (t.start_idx ≤ k)
  unfolding scan_streaks iter_ones
  scan-Follows zero i state k e h f p q r set = absurd (omega arith)
  scan-Follows (suc n) i state k e h f p q r set = elim (Bool-cases (b.get i x)) [
    | inl y ↦
        let (_, ends) = streak_at-Sound state i h y in
        elim (Bool-cases (e == i)) [
          | inl here_now ↦
              let z = (==_iff e i).0 here_now in
              rw y (
                streak_at state i,
                Among.here _ _ refl,
                ends ∙ sym z,
                streak_at-start state i k h f (omega (arith, z)),
              )
          | inr later ↦
              let (t, m, u, v) =
                scan-Follows n (suc i) (some (streak_at state i)) k e (Remembers-next state i h y)
                  (Follows-next state i k h f y) p (ground arith) (omega arith) set in
              rw y (t, Among.there _ _ m, u, v)
        ]
    | inr z ↦
        let beyond : suc i ≤ k = elim (Bool-cases (leb k i)) [
          | inl c ↦ absurd (let w = set i (leb→le k i c) q in cc)
          | inr c ↦ ground arith
        ] in
        let (t, m, u, v) =
          scan-Follows n (suc i) state k e (λ s w. let (c, d) = h s w in (c, omega arith))
            (inl beyond) p (omega arith) (omega arith) set in
        rw z (t, m, u, v)
  ]
