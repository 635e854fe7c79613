-- ===== src/Attestation/CompareLaws.antt =====
-- What it takes for a measurement, an AMD report and a command line to be accepted.
use not_an_oak_fork.Base.{
  ℕ, String, ◌<◌, ◌≤◌, ◌≡◌, refl, sym, ◌↔◌, ◌⊎◌, inl, inr, Bool, true, false, not, ◌&&◌, Option,
  none, some, List, [], ◌∷◌, Result, ok, bail, arith, is_ok, is_ok_iff, ensure, ltb, Bool-cases,
  length, ensure-eq-ok, ◌==◌, ==_iff, ◌>>◌, >>=-eq-ok, context-eq-ok, with_context-eq-ok, lt→ltb,
  if◌then◌else◌,
}
use not_an_oak_fork.Attestation.Digest.{RawDigest, is_raw_digest_match}
use not_an_oak_fork.Attestation.DigestTally.{AnyAgree, AnyClash, raw_fields}
use not_an_oak_fork.Attestation.DigestLaws.{is_raw_digest_match-ok}
use not_an_oak_fork.Attestation.Values.{TcbVersion}
use not_an_oak_fork.Attestation.Expectations.{
  Expected, ExpectedDigests, ExpectedText, TextExpectedValue, AmdSevExpectedValues,
}
use not_an_oak_fork.Attestation.Evidence.{AmdAttestationReport}
use not_an_oak_fork.Attestation.Externals.{Externals}
use not_an_oak_fork.Attestation.Compare.{
  find_match, compare_with, compare_measurement_digest, ensure_tcb,
  verify_amd_sev_attestation_report, has_literal, verify_regex, compare_text, compare_some_cmd_line,
  compare_no_cmd_line, compare_cmd_line,
}

-- A measured and an allowed digest agree in some field and clash in none.
abbrev pub Matches : RawDigest → RawDigest → Type 0
Matches m d = AnyAgree (raw_fields m) (raw_fields d) × ¬ AnyClash (raw_fields m) (raw_fields d)

abbrev pub MatchesAny : RawDigest → List RawDigest → Type 0
MatchesAny m [] = ⊥
MatchesAny m (d ∷ ds) = Matches m d ⊎ MatchesAny m ds

-- What the expected value allows: anything when the check is skipped, else a listed digest.
abbrev pub Allows : Option Expected → RawDigest → Type 0
Allows none m = ⊥
Allows (some (Expected.skipped s)) m = Unit {0}
Allows (some (Expected.digests ds)) m = MatchesAny m ds

-- the laws of `hex::encode`: it is one-to-one, and no bytes have no digits
pub record IsHex (x : Externals) : Type 0 where
  pub injective : (a b : List ℕ) → x.hex_encode a ≡ x.hex_encode b → a ≡ b
  pub encode-nil : x.hex_encode [] ≡ []

module _ (x : Externals) (hex : IsHex x) where
  find_match-MatchesAny :
      (m : RawDigest) (ds : List RawDigest) → (find_match x m ds ≡ true) ↔ MatchesAny m ds
  unfolding find_match
  find_match-MatchesAny m [] = (λ e. cc, λ z. absurd z)
  find_match-MatchesAny m (d ∷ ds) =
      let rest = find_match-MatchesAny m ds in
      let this = is_raw_digest_match-ok x.hex_encode hex.injective hex.encode-nil m d in
      let test = is_ok_iff (is_raw_digest_match x.hex_encode m d) in
      (
        λ e. elim (Bool-cases (is_ok (is_raw_digest_match x.hex_encode m d))) [
          | inl p ↦ inl (this.0 (test.0 p))
          | inr p ↦ inr (rest.0 (rw p at e))
        ],
        λ z. elim z [ inl p ↦ rw (test.1 (this.1 p)) refl | inr q ↦ ground (arith, rest.1 q) ],
      )

  -- A measurement is accepted exactly when the expected value is a skip, or lists a digest that
  -- agrees with it in some field and differs in none that both set. An empty list or a missing
  -- value accepts nothing. The hex encoding is taken to be one-to-one and to encode no bytes by
  -- no digits.
  pub compare_measurement_digest-Allows :
      (m : RawDigest) (e : ExpectedDigests)
      → (compare_measurement_digest x m e ≡ ok tt) ↔ Allows e.type m
  unfolding compare_measurement_digest
  compare_measurement_digest-Allows m e = compare_with-Allows e.type
    where
      compare_with-Allows : (o : Option Expected) → (compare_with x m o ≡ ok tt) ↔ Allows o m
      compare_with-Allows none = (λ h. cc, λ z. absurd z)
      compare_with-Allows (some (Expected.skipped s)) = (λ h. tt, λ z. refl)
      compare_with-Allows (some (Expected.digests ds)) =
          let f = find_match-MatchesAny m ds in
          (λ h. f.0 (ensure-eq-ok _ _ h), λ z. rw (f.1 z) refl)

abbrev pub AtLeast : Option TcbVersion → Option TcbVersion → Type 0
AtLeast none r = ⊥
AtLeast (some m) none = ⊥
AtLeast (some m) (some r) =
    (m.boot_loader ≤ r.boot_loader)
    × (m.tee ≤ r.tee)
    × (m.snp ≤ r.snp)
    × (m.microcode ≤ r.microcode)

ensure_tcb-AtLeast : (m r : Option TcbVersion) → (ensure_tcb m r ≡ ok tt) ↔ AtLeast m r
unfolding ensure_tcb
ensure_tcb-AtLeast none r = (λ h. cc, λ z. absurd z)
ensure_tcb-AtLeast (some m) none = (λ h. cc, λ z. absurd z)
ensure_tcb-AtLeast (some m) (some r) = (λ h. ground arith, λ z. ground arith)

ensure_twice-ok :
    (v g : Bool) (s t : String) (k : Result (Unit {0}))
    → ((ensure v s >> (ensure g t >> k)) ≡ ok tt) ↔ ((v ≡ true) × (g ≡ true) × (k ≡ ok tt))
ensure_twice-ok true true s t k = (λ h. (refl, refl, h), λ z. z.2)
ensure_twice-ok true false s t k = (λ h. cc, λ z. cc (z.1))
ensure_twice-ok false g s t k = (λ h. cc, λ z. cc (z.0))

debug_test : (a d : Bool) → (not (not a && d) ≡ true) ↔ ((a ≡ true) ⊎ (d ≡ false))
debug_test true d = (λ h. inl refl, λ z. refl)
debug_test false true = (λ h. cc, λ z. elim z [ inl p ↦ p | inr p ↦ sym p ])
debug_test false false = (λ h. inr refl, λ z. refl)

-- An AMD report is accepted exactly when it was made at VMPL 0, is no debug report unless debug
-- is allowed, and both TCB versions are there with every component reported at least at its
-- minimum.
pub verify_amd_sev_attestation_report-ok :
    (r : AmdAttestationReport) (e : AmdSevExpectedValues)
    → (verify_amd_sev_attestation_report r e ≡ ok tt) ↔ (
        (r.vmpl ≡ 0)
        × ((e.allow_debug ≡ true) ⊎ (r.debug ≡ false))
        × AtLeast e.min_tcb_version r.reported_tcb)
unfolding verify_amd_sev_attestation_report
verify_amd_sev_attestation_report-ok r e =
    let t = ensure_tcb-AtLeast e.min_tcb_version r.reported_tcb in
    let d = debug_test e.allow_debug r.debug in
    let v = ==_iff r.vmpl 0 in
    let c = ensure_twice-ok (r.vmpl == 0) (not (not e.allow_debug && r.debug)) _ _ _ in
    (λ h. let z = c.0 h in (v.0 z.0, d.0 z.1, t.0 z.2), λ z. c.1 (v.1 z.0, d.1 z.1, t.1 z.2))

-- A command line of the evidence against the expected text: a skip accepts any, present or not;
-- otherwise there must be one of less than 256 bytes, and it must be one of the literals, or
-- match the regular expression.
abbrev pub AllowsText : Externals → Option ExpectedText → Option (List ℕ) → Type 0
AllowsText x none line = ⊥
AllowsText x (some (ExpectedText.skipped s)) line = Unit {0}
AllowsText x (some (ExpectedText.regex r)) none = ⊥
AllowsText x (some (ExpectedText.regex r)) (some line) =
    (length line < 256) × (p : List ℕ → Bool) × (x.compile_regex r ≡ some p) × (p line ≡ true)
AllowsText x (some (ExpectedText.string_literals ls)) none = ⊥
AllowsText x (some (ExpectedText.string_literals ls)) (some line) =
    (length line < 256) × (has_literal line ls ≡ true)

abbrev pub text_of : Option TextExpectedValue → Option ExpectedText
text_of none = none
text_of (some e) = e.type

limited-ok :
    (n : ℕ) (s : String) (k : Result (Unit {0}))
    → (if ltb n 256 then k else bail s) ≡ ok tt
    → (n < 256) × (k ≡ ok tt)
limited-ok n s k h = ground arith

module _ (x : Externals) where
  verify_regex-ok :
      (line r : List ℕ)
      → (verify_regex x line r ≡ ok tt)
        ↔ ((p : List ℕ → Bool) × (x.compile_regex r ≡ some p) × (p line ≡ true))
  unfolding verify_regex
  verify_regex-ok line r = (
    λ h. let (p, e, k) = >>=-eq-ok _ _ h in (p, context-eq-ok _ _ e, ensure-eq-ok _ _ k),
    λ z. rw (z.1, z.2) refl,
  )

  compare_some-AllowsText :
      (line : List ℕ) (t : Option ExpectedText)
      → (compare_some_cmd_line x line t ≡ ok tt) ↔ AllowsText x t (some line)
  unfolding compare_some_cmd_line compare_text
  compare_some-AllowsText line none = (λ h. cc (limited-ok (length line) _ _ h).1, λ z. absurd z)
  compare_some-AllowsText line (some (ExpectedText.skipped s)) = (λ h. tt, λ z. refl)
  compare_some-AllowsText line (some (ExpectedText.regex r)) =
      let v = verify_regex-ok line r in
      (
        λ h.
            let z = limited-ok (length line) _ _ h in
            let w = v.0 (with_context-eq-ok _ _ z.1) in (z.0, w.0, w.1, w.2),
        λ z. rw (lt→ltb (length line) 256 z.0, v.1 (z.1, z.2, z.3)) refl,
      )
  compare_some-AllowsText line (some (ExpectedText.string_literals ls)) = (
    λ h. let z = limited-ok (length line) _ _ h in (z.0, ensure-eq-ok _ _ z.1),
    λ z. rw (lt→ltb (length line) 256 z.0, z.1) refl,
  )

  compare_no-AllowsText :
      (t : Option ExpectedText) → (compare_no_cmd_line x t ≡ ok tt) ↔ AllowsText x t none
  unfolding compare_no_cmd_line
  compare_no-AllowsText none = (λ h. cc, λ z. absurd z)
  compare_no-AllowsText (some (ExpectedText.skipped s)) = (λ h. tt, λ z. refl)
  compare_no-AllowsText (some (ExpectedText.regex r)) = (λ h. cc, λ z. absurd z)
  compare_no-AllowsText (some (ExpectedText.string_literals ls)) = (λ h. cc, λ z. absurd z)

  pub compare_cmd_line-AllowsText :
      (line : Option (List ℕ)) (expected : Option TextExpectedValue)
      → (compare_cmd_line x line expected ≡ ok tt) ↔ AllowsText x (text_of expected) line
  unfolding compare_cmd_line
  compare_cmd_line-AllowsText none none = (λ h. cc, λ z. absurd z)
  compare_cmd_line-AllowsText (some line) none = (λ h. cc, λ z. absurd z)
  compare_cmd_line-AllowsText none (some e) = compare_no-AllowsText e.type
  compare_cmd_line-AllowsText (some line) (some e) = compare_some-AllowsText line e.type
