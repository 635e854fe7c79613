-- ===== src/Attestation/DigestLaws.antt =====
-- When two digests match: the verdicts of oak_attestation_verification/src/util.rs.
use not_an_oak_fork.Base.{
  ℕ, ◌<◌, ◌≡◌, refl, sym, ap, ◌∙◌, ◌≢◌, ◌↔◌, inl, inr, List, [], ◌∷◌, ok, arith, ltb, ltb→lt,
  lt→ltb, Bool-cases,
}
use not_an_oak_fork.Attestation.Digest.{
  RawDigest, HexDigest, MatchResult, same, different, undecidable, contradictory, Counts,
  count_fields, judge, get_hex_digest_match, match_outcome, is_hex_digest_match, raw_to_hex_digest,
  is_raw_digest_match,
}
use not_an_oak_fork.Attestation.DigestTally.{
  hex_fields, raw_fields, AnyAgree, AnyClash, count_fields-tally, tally-same, tally-different,
}

-- What each verdict says about the fields of two digests.
abbrev pub Verdict : MatchResult → List (List ℕ) → List (List ℕ) → Type 0
Verdict same as' bs = AnyAgree as' bs × ¬ AnyClash as' bs
Verdict different as' bs = ¬ AnyAgree as' bs × AnyClash as' bs
Verdict undecidable as' bs = ¬ AnyAgree as' bs × ¬ AnyClash as' bs
Verdict contradictory as' bs = AnyAgree as' bs × AnyClash as' bs

judge-Verdict :
    (n : Counts) (as' bs : List (List ℕ))
    → ((0 < n.same) ↔ AnyAgree as' bs)
    → ((0 < n.different) ↔ AnyClash as' bs)
    → Verdict (judge n) as' bs
unfolding judge
judge-Verdict n as' bs s d = elim (Bool-cases (ltb 0 n.same)) [
  | inl p ↦ elim (Bool-cases (ltb 0 n.different)) [
    | inl q ↦ rw (p, q) (s.0 (ltb→lt _ _ p), d.0 (ltb→lt _ _ q))
    | inr q ↦ rw (p, q) (s.0 (ltb→lt _ _ p), λ z. cc (q, lt→ltb 0 n.different (d.1 z)))
  ]
  | inr p ↦ elim (Bool-cases (ltb 0 n.different)) [
    | inl q ↦ rw (p, q) (λ z. cc (p, lt→ltb 0 n.same (s.1 z)), d.0 (ltb→lt _ _ q))
    | inr q ↦
        rw (p, q) (λ z. cc (p, lt→ltb 0 n.same (s.1 z)), λ z. cc (q, lt→ltb 0 n.different (d.1 z)))
  ]
]

-- The verdict on two digests is the one that their nine fields call for: `same` when some field
-- is set on both sides to one value and none to two, `different` when it is the other way
-- round, `contradictory` when there are fields of both sorts, and `undecidable` when no field
-- is set on both sides.
pub get_hex_digest_match-Verdict :
    (a b : HexDigest) → Verdict (get_hex_digest_match a b) (hex_fields a) (hex_fields b)
unfolding get_hex_digest_match
get_hex_digest_match-Verdict a b =
    let s = tally-same (hex_fields a) (hex_fields b) (record { same = 0; different = 0 }) in
    let d = tally-different (hex_fields a) (hex_fields b) (record { same = 0; different = 0 }) in
    judge-Verdict (count_fields a b) (hex_fields a) (hex_fields b)
      (rw (count_fields-tally a b)
        (λ h. elim (s.0 h) [ inl p ↦ absurd (omega arith) | inr q ↦ q ], λ h. s.1 (inr h)))
      (rw (count_fields-tally a b)
        (λ h. elim (d.0 h) [ inl p ↦ absurd (omega arith) | inr q ↦ q ], λ h. d.1 (inr h)))

match_outcome-ok : (r : MatchResult) → (match_outcome r ≡ ok tt) ↔ (r ≡ same)
unfolding match_outcome
match_outcome-ok r = ground arith

Verdict-same :
    (r : MatchResult) (as' bs : List (List ℕ))
    → Verdict r as' bs
    → (r ≡ same) ↔ (AnyAgree as' bs × ¬ AnyClash as' bs)
Verdict-same same as' bs v = (λ e. v, λ z. refl)
Verdict-same different as' bs v = (λ e. cc, λ z. absurd (v.0 z.0))
Verdict-same undecidable as' bs v = (λ e. cc, λ z. absurd (v.0 z.0))
Verdict-same contradictory as' bs v = (λ e. cc, λ z. absurd (z.1 v.1))

-- A digest is accepted exactly when it agrees in some field and clashes in none.
pub is_hex_digest_match-ok :
    (a b : HexDigest)
    → (is_hex_digest_match a b ≡ ok tt)
      ↔ (AnyAgree (hex_fields a) (hex_fields b) × ¬ AnyClash (hex_fields a) (hex_fields b))
unfolding is_hex_digest_match
is_hex_digest_match-ok a b =
    let m = match_outcome-ok (get_hex_digest_match a b) in
    let v = Verdict-same (get_hex_digest_match a b) _ _ (get_hex_digest_match-Verdict a b) in
    (λ e. v.0 (m.0 e), λ z. m.1 (v.1 z))

-- The encoding of `hex` is one-to-one, and no bytes are encoded by no digits.
module _ (encode : List ℕ → List ℕ) (injective : (a b : List ℕ) → encode a ≡ encode b → a ≡ b)
    (encode-nil : encode [] ≡ []) where
  encode-ne : (a : List ℕ) → (encode a ≢ []) ↔ (a ≢ [])
  encode-ne a =
      (λ h e. h (ap encode e ∙ encode-nil), λ h e. h (injective a [] (e ∙ sym encode-nil)))

  abbrev encode_all : List (List ℕ) → List (List ℕ)
  encode_all [] = []
  encode_all (a ∷ as') = encode a ∷ encode_all as'

  AnyAgree-encode :
      (as' bs : List (List ℕ)) → AnyAgree (encode_all as') (encode_all bs) ↔ AnyAgree as' bs
  AnyAgree-encode [] bs = (λ h. h, λ h. h)
  AnyAgree-encode (a ∷ as') [] = (λ h. h, λ h. h)
  AnyAgree-encode (a ∷ as') (b ∷ bs) =
      let rest = AnyAgree-encode as' bs in
      (
        λ h. elim h [
          | inl p ↦ inl ((encode-ne a).0 p.0, injective a b p.1)
          | inr q ↦ inr (rest.0 q)
        ],
        λ h. elim h [ inl p ↦ inl ((encode-ne a).1 p.0, ap encode p.1) | inr q ↦ inr (rest.1 q) ],
      )

  AnyClash-encode :
      (as' bs : List (List ℕ)) → AnyClash (encode_all as') (encode_all bs) ↔ AnyClash as' bs
  AnyClash-encode [] bs = (λ h. h, λ h. h)
  AnyClash-encode (a ∷ as') [] = (λ h. h, λ h. h)
  AnyClash-encode (a ∷ as') (b ∷ bs) =
      let rest = AnyClash-encode as' bs in
      (
        λ h. elim h [
          | inl p ↦ inl ((encode-ne a).0 p.0, (encode-ne b).0 p.1, λ e. p.2 (ap encode e))
          | inr q ↦ inr (rest.0 q)
        ],
        λ h. elim h [
          | inl p ↦ inl ((encode-ne a).1 p.0, (encode-ne b).1 p.1, λ e. p.2 (injective a b e))
          | inr q ↦ inr (rest.1 q)
        ],
      )

  -- Raw digests are accepted by their own fields, though the code compares their hex forms.
  pub is_raw_digest_match-ok :
      (a b : RawDigest)
      → (is_raw_digest_match encode a b ≡ ok tt)
        ↔ (AnyAgree (raw_fields a) (raw_fields b) × ¬ AnyClash (raw_fields a) (raw_fields b))
  unfolding is_raw_digest_match is_hex_digest_match
  is_raw_digest_match-ok a b =
      let h = is_hex_digest_match-ok (raw_to_hex_digest encode a) (raw_to_hex_digest encode b) in
      let g = AnyAgree-encode (raw_fields a) (raw_fields b) in
      let c = AnyClash-encode (raw_fields a) (raw_fields b) in
      (λ e. let z = h.0 e in (g.0 z.0, λ w. z.1 (c.1 w)), λ z. h.1 (g.1 z.0, λ w. z.1 (c.0 w)))
