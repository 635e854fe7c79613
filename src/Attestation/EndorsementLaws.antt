-- ===== src/Attestation/EndorsementLaws.antt =====
-- When an endorsement holds: the statements of claims.rs and `verify_binary_endorsement` of
-- endorsement.rs (oak_attestation_verification/src).
use not_an_oak_fork.Base.{
  ℕ, ℤ, String, ◌≡◌, refl, ◌↔◌, ◌⊎◌, inl, inr, ◌≢◌, Bool, true, false, not, ◌&&◌, ◌≤ℤ◌, bytes_eq,
  bytes_eq_iff, Option, none, some, List, [], ◌∷◌, Result, ok, bail, >>=-eq-ok, >>=-ok,
  context-eq-ok, context-ok, ◌>>◌, is_empty, arith, if◌then◌else◌,
}
use not_an_oak_fork.Attestation.Externals.{Externals, EndorsementStatement, ClaimValidity}
use not_an_oak_fork.Attestation.Util.{verify_signature_raw}
use not_an_oak_fork.Attestation.Claims.{
  InvalidClaimData, Validation, valid, invalid, and_then, validate_period, validate_claim,
  validate_endorsement, millis, verify_validity_period, verify_validity_duration, statement_v1,
  predicate_v1, predicate_v2, endorsement_v2, parse_endorsement_statement,
}
use not_an_oak_fork.Attestation.Rekor.{verify_rekor_log_entry}
use not_an_oak_fork.Attestation.LayerLaws.{then_ok}
use not_an_oak_fork.Attestation.Endorsement.{
  accepted, verify_endorsement_statement, verify_endorser_public_key, verify_binary_endorsement,
}

-- The period, if one is stated, starts no earlier than the statement and does not end before it
-- starts.
abbrev pub OrderedPeriod : ℤ → Option ClaimValidity → Type 0
OrderedPeriod issued none = Unit {0}
OrderedPeriod issued (some v) = (issued ≤ℤ v.not_before) × (v.not_before ≤ℤ v.not_after)

validate_period-OrderedPeriod :
    (i : ℤ) (o : Option ClaimValidity) → (validate_period i o ≡ valid) ↔ OrderedPeriod i o
unfolding validate_period
validate_period-OrderedPeriod i none = (λ h. tt, λ z. refl)
validate_period-OrderedPeriod i (some v) = (λ h. ground arith, λ z. ground arith)

-- an endorsement statement of the expected types, with an ordered period
abbrev pub WellFormed : EndorsementStatement → Type 0
WellFormed c =
    (c.statement_type ≡ statement_v1)
    × ((c.predicate_type ≡ predicate_v1) ⊎ (c.predicate_type ≡ predicate_v2))
    × OrderedPeriod c.predicate.issued_on c.predicate.validity
    × (c.predicate.claim_type ≡ endorsement_v2)

-- The validity period is stated and contains the time, in milliseconds.
abbrev pub InPeriod : ℤ → Option ClaimValidity → Type 0
InPeriod now none = ⊥
InPeriod now (some v) = (millis v.not_before ≤ℤ now) × (now ≤ℤ millis v.not_after)

verify_validity_period-InPeriod :
    (now : ℤ) (o : Option ClaimValidity) → (verify_validity_period now o ≡ ok tt) ↔ InPeriod now o
unfolding verify_validity_period
verify_validity_period-InPeriod now none = (λ h. cc, λ z. absurd z)
verify_validity_period-InPeriod now (some v) = (λ h. ground arith, λ z. ground arith)

both_valid :
    (v : Validation) (t : Bool) (c : InvalidClaimData)
    → and_then v (if not t then invalid c else valid) ≡ valid
    → (v ≡ valid) × (t ≡ true)
both_valid valid true c h = (refl, refl)
both_valid valid false c h = cc
both_valid (invalid e) t c h = cc

type_tests :
    (s p q t : Bool) (v : Validation) (a b c : InvalidClaimData)
    → (and_then
          (if not s then invalid a else if not p && not q then invalid b else v)
          (if not t then invalid c else valid)
        ≡ valid)
      ↔ ((s ≡ true) × ((p ≡ true) ⊎ (q ≡ true)) × (v ≡ valid) × (t ≡ true))
type_tests false p q t v a b c = (λ h. cc, λ z. cc (z.0))
type_tests true false false t v a b c = (λ h. cc, λ z. elim (z.1) [ inl e ↦ cc | inr e ↦ cc ])
type_tests true true q t v a b c =
    (λ h. let z = both_valid v t c h in (refl, inl refl, z.0, z.1), λ z. rw (z.2, z.3) refl)
type_tests true false true t v a b c =
    (λ h. let z = both_valid v t c h in (refl, inr refl, z.0, z.1), λ z. rw (z.2, z.3) refl)

-- An endorsement statement is valid exactly when its statement type is that of in-toto, its
-- predicate type one of the two claim types, its claim type that of endorsements, and its
-- validity period, if it has one, starts no earlier than the statement was issued and ends no
-- earlier than it starts.
pub validate_endorsement-WellFormed :
    (c : EndorsementStatement) → (validate_endorsement c ≡ valid) ↔ WellFormed c
unfolding validate_endorsement validate_claim
validate_endorsement-WellFormed c =
    let s = bytes_eq_iff c.statement_type statement_v1 in
    let p = bytes_eq_iff c.predicate_type predicate_v1 in
    let q = bytes_eq_iff c.predicate_type predicate_v2 in
    let t = bytes_eq_iff c.predicate.claim_type endorsement_v2 in
    let v = validate_period-OrderedPeriod c.predicate.issued_on c.predicate.validity in
    let k =
      type_tests (bytes_eq c.statement_type statement_v1) (bytes_eq c.predicate_type predicate_v1)
        (bytes_eq c.predicate_type predicate_v2) (bytes_eq c.predicate.claim_type endorsement_v2)
        (validate_period c.predicate.issued_on c.predicate.validity) _ _ _ in
    (
      λ h.
          let z = k.0 h in
          (s.0 z.0, elim (z.1) [ inl e ↦ inl (p.0 e) | inr e ↦ inr (q.0 e) ], v.0 z.2, t.0 z.3),
      λ z.
          k.1 (s.1 z.0, elim (z.1) [ inl e ↦ inl (p.1 e) | inr e ↦ inr (q.1 e) ], v.1 z.2, t.1 z.3),
    )

-- the three ways of `verify_binary_endorsement`
branches :
    (l r : List ℕ) (a b : Result (Unit {0})) (t : String)
    → ((if not (is_empty l) then a else if not (is_empty r) then bail t else b) ≡ ok tt)
      ↔ (((l ≢ []) × (a ≡ ok tt)) ⊎ ((l ≡ []) × (r ≡ []) × (b ≡ ok tt)))
branches (c ∷ l) r a b t = (λ h. inl (λ e. cc, h), λ z. elim z [ inl p ↦ p.1 | inr p ↦ cc (p.0) ])
branches [] (c ∷ r) a b t = (λ h. cc, λ z. elim z [ inl p ↦ absurd (p.0 refl) | inr p ↦ cc (p.1) ])
branches [] [] a b t =
    (λ h. inr (refl, refl, h), λ z. elim z [ inl p ↦ absurd (p.0 refl) | inr p ↦ p.2 ])

accepted_iff : (v : Validation) → (accepted v ≡ ok tt) ↔ (v ≡ valid)
accepted_iff valid = (λ h. refl, λ h. refl)
accepted_iff (invalid e) = (λ h. cc, λ h. cc)

verify_endorsement_statement-ok :
    (now : ℤ) (c : EndorsementStatement)
    → (verify_endorsement_statement now c ≡ ok tt)
      ↔ (WellFormed c × InPeriod now c.predicate.validity)
unfolding verify_endorsement_statement verify_validity_duration
verify_endorsement_statement-ok now c =
    let a = accepted_iff (validate_endorsement c) in
    let w = validate_endorsement-WellFormed c in
    let p = verify_validity_period-InPeriod now c.predicate.validity in
    let q = then_ok (accepted (validate_endorsement c)) (verify_validity_duration now c) in
    (λ h. let z = q.0 h in (w.0 (a.0 z.0), p.0 z.1), λ z. q.1 (a.1 (w.1 z.0), p.1 z.1))

module _ (x : Externals) where
  -- With a log entry: the statement is well formed and valid now, the log has signed the entry
  -- for this endorsement, and the entry is by the endorser.
  abbrev pub Logged : ℤ → EndorsementStatement → List ℕ → List ℕ → List ℕ → List ℕ → Type 0
  Logged now statement endorsement log_entry endorser rekor =
      WellFormed statement
      × InPeriod now statement.predicate.validity
      × (verify_rekor_log_entry x log_entry rekor endorsement ≡ ok tt)
      × (verify_endorser_public_key x log_entry endorser ≡ ok tt)

  -- An endorsement is parsed; with a log entry it must be logged, without one no log key may be
  -- asked for, and the endorser's signature over it must hold.
  abbrev pub Endorsed : ℤ → List ℕ → List ℕ → List ℕ → List ℕ → List ℕ → Type 0
  Endorsed now endorsement signature log_entry endorser rekor =
      (s : EndorsementStatement) × (x.parse_statement endorsement ≡ some s)
      × (((log_entry ≢ []) × Logged now s endorsement log_entry endorser rekor)
          ⊎ ((log_entry ≡ [])
              × (rekor ≡ [])
              × (verify_signature_raw x signature endorsement endorser ≡ ok tt)))

  Logged-ok :
      (now : ℤ) (c : EndorsementStatement) (e l k r : List ℕ)
      → ((verify_endorsement_statement now c
            >> (verify_rekor_log_entry x l r e >> verify_endorser_public_key x l k))
          ≡ ok tt)
        ↔ Logged now c e l k r
  Logged-ok now c e l k r =
      let st = verify_endorsement_statement-ok now c in
      let p = then_ok (verify_endorsement_statement now c) _ in
      let q = then_ok (verify_rekor_log_entry x l r e) (verify_endorser_public_key x l k) in
      (
        λ h. let (a, h1) = p.0 h in let (b, d) = q.0 h1 in ((st.0 a).0, (st.0 a).1, b, d),
        λ z. p.1 (st.1 (z.0, z.1), q.1 (z.2, z.3)),
      )

  -- `verify_binary_endorsement` succeeds exactly when the statement parses and either there is
  -- a log entry, the statement is well formed, its validity period contains the time, and the
  -- entry passes the check of the log and of the endorser's key; or there is no log entry, no
  -- key of the log is given, and the endorser's signature over the endorsement holds. In the
  -- second case neither form nor validity is checked.
  pub verify_binary_endorsement-Endorsed :
      (now : ℤ) (e s l k r : List ℕ)
      → (verify_binary_endorsement x now e s l k r ≡ ok tt) ↔ Endorsed now e s l k r
  unfolding verify_binary_endorsement parse_endorsement_statement
  verify_binary_endorsement-Endorsed now e s l k r = (
    λ h.
        let (st, e0, h0) = >>=-eq-ok _ _ h in
        (
          st,
          context-eq-ok _ _ e0,
          elim ((branches l r _ _ _).0 h0) [
            | inl z ↦ inl (z.0, (Logged-ok now st e l k r).0 z.1)
            | inr z ↦ inr z
          ],
        ),
    λ z.
        let (st, e0, c) = z in
        >>=-ok _ _ (context-ok _ _ e0) (
          (branches l r _ _ _).1
            (elim c [ inl y ↦ inl (y.0, (Logged-ok now st e l k r).1 y.1) | inr y ↦ inr y ])),
  )
