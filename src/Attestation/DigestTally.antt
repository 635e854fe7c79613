-- ===== src/Attestation/DigestTally.antt =====
-- The counters of `get_hex_digest_match` (oak_attestation_verification/src/util.rs), field by field.
use not_an_oak_fork.Base.{
  ℕ, ◌<◌, ◌≡◌, refl, ◌≢◌, ◌↔◌, ◌⊎◌, inl, inr, List, [], ◌∷◌, arith, bytes_eq, bytes_eq_iff,
  Bool-cases,
}
use not_an_oak_fork.Attestation.Digest.{RawDigest, HexDigest, Counts, count_field, count_fields}

abbrev pub hex_fields : HexDigest → List (List ℕ)
hex_fields d =
    d.psha2 ∷ d.sha1 ∷ d.sha2_256 ∷ d.sha2_512 ∷ d.sha3_512 ∷ d.sha3_384 ∷ d.sha3_256 ∷ d.sha3_224
    ∷ d.sha2_384 ∷ []

abbrev pub raw_fields : RawDigest → List (List ℕ)
raw_fields d =
    d.psha2 ∷ d.sha1 ∷ d.sha2_256 ∷ d.sha2_512 ∷ d.sha3_512 ∷ d.sha3_384 ∷ d.sha3_256 ∷ d.sha3_224
    ∷ d.sha2_384 ∷ []

-- One field is set on both sides, to the same value or to two values.
abbrev pub Agree : List ℕ → List ℕ → Type 0
Agree a b = (a ≢ []) × (a ≡ b)

abbrev pub Clash : List ℕ → List ℕ → Type 0
Clash a b = (a ≢ []) × (b ≢ []) × (a ≢ b)

abbrev pub AnyAgree : List (List ℕ) → List (List ℕ) → Type 0
AnyAgree [] bs = ⊥
AnyAgree (a ∷ as') [] = ⊥
AnyAgree (a ∷ as') (b ∷ bs) = Agree a b ⊎ AnyAgree as' bs

abbrev pub AnyClash : List (List ℕ) → List (List ℕ) → Type 0
AnyClash [] bs = ⊥
AnyClash (a ∷ as') [] = ⊥
AnyClash (a ∷ as') (b ∷ bs) = Clash a b ⊎ AnyClash as' bs

-- the counters over any list of fields
unfoldable pub tally : List (List ℕ) → List (List ℕ) → Counts → Counts
tally [] bs n = n
tally (a ∷ as') [] n = n
tally (a ∷ as') (b ∷ bs) n = tally as' bs (count_field a b n)

pub count_fields-tally :
    (a b : HexDigest)
    → count_fields a b ≡ tally (hex_fields a) (hex_fields b) (record { same = 0; different = 0 })
unfolding count_fields tally
count_fields-tally a b = refl

count_field-same :
    (a b : List ℕ) (n : Counts) → (0 < (count_field a b n).same) ↔ ((0 < n.same) ⊎ Agree a b)
unfolding count_field
count_field-same [] b n = (λ h. inl h, λ h. elim h [ inl p ↦ p | inr q ↦ absurd (q.0 refl) ])
count_field-same (x ∷ a) [] n = (λ h. inl h, λ h. elim h [ inl p ↦ p | inr q ↦ cc (q.1) ])
count_field-same (x ∷ a) (y ∷ b) n = elim (Bool-cases (bytes_eq (x ∷ a) (y ∷ b))) [
  | inl e ↦ rw e (λ h. inr (λ z. cc, (bytes_eq_iff (x ∷ a) (y ∷ b)).0 e), λ h. omega arith)
  | inr e ↦
      rw e (
        λ h. inl h,
        λ h. elim h [ inl p ↦ p | inr q ↦ cc (e, (bytes_eq_iff (x ∷ a) (y ∷ b)).1 q.1) ],
      )
]

count_field-different :
    (a b : List ℕ) (n : Counts)
    → (0 < (count_field a b n).different) ↔ ((0 < n.different) ⊎ Clash a b)
unfolding count_field
count_field-different [] b n = (λ h. inl h, λ h. elim h [ inl p ↦ p | inr q ↦ absurd (q.0 refl) ])
count_field-different (x ∷ a) [] n =
    (λ h. inl h, λ h. elim h [ inl p ↦ p | inr q ↦ absurd (q.1 refl) ])
count_field-different (x ∷ a) (y ∷ b) n = elim (Bool-cases (bytes_eq (x ∷ a) (y ∷ b))) [
  | inl e ↦ rw e (
    λ h. inl h,
    λ h. elim h [ inl p ↦ p | inr q ↦ absurd (q.2 ((bytes_eq_iff (x ∷ a) (y ∷ b)).0 e)) ],
  )
  | inr e ↦ rw e (
    λ h. inr (λ z. cc, λ z. cc, λ z. cc (e, (bytes_eq_iff (x ∷ a) (y ∷ b)).1 z)),
    λ h. omega arith,
  )
]

pub tally-same :
    (as' bs : List (List ℕ)) (n : Counts)
    → (0 < (tally as' bs n).same) ↔ ((0 < n.same) ⊎ AnyAgree as' bs)
unfolding tally
tally-same [] bs n = (λ h. inl h, λ h. elim h [ inl p ↦ p | inr q ↦ absurd q ])
tally-same (a ∷ as') [] n = (λ h. inl h, λ h. elim h [ inl p ↦ p | inr q ↦ absurd q ])
tally-same (a ∷ as') (b ∷ bs) n =
    let rest = tally-same as' bs (count_field a b n) in
    let here = count_field-same a b n in
    (
      λ h. elim (rest.0 h) [
        | inl p ↦ elim (here.0 p) [ inl q ↦ inl q | inr q ↦ inr (inl q) ]
        | inr q ↦ inr (inr q)
      ],
      λ h. elim h [
        | inl p ↦ rest.1 (inl (here.1 (inl p)))
        | inr q ↦ elim q [ inl q' ↦ rest.1 (inl (here.1 (inr q'))) | inr q' ↦ rest.1 (inr q') ]
      ],
    )

pub tally-different :
    (as' bs : List (List ℕ)) (n : Counts)
    → (0 < (tally as' bs n).different) ↔ ((0 < n.different) ⊎ AnyClash as' bs)
unfolding tally
tally-different [] bs n = (λ h. inl h, λ h. elim h [ inl p ↦ p | inr q ↦ absurd q ])
tally-different (a ∷ as') [] n = (λ h. inl h, λ h. elim h [ inl p ↦ p | inr q ↦ absurd q ])
tally-different (a ∷ as') (b ∷ bs) n =
    let rest = tally-different as' bs (count_field a b n) in
    let here = count_field-different a b n in
    (
      λ h. elim (rest.0 h) [
        | inl p ↦ elim (here.0 p) [ inl q ↦ inl q | inr q ↦ inr (inl q) ]
        | inr q ↦ inr (inr q)
      ],
      λ h. elim h [
        | inl p ↦ rest.1 (inl (here.1 (inl p)))
        | inr q ↦ elim q [ inl q' ↦ rest.1 (inl (here.1 (inr q'))) | inr q' ↦ rest.1 (inr q') ]
      ],
    )
