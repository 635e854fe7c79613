-- ===== src/Attestation/Acceptance.antt =====
-- `verify` and `to_attestation_results` of oak_attestation_verification/src/verifier.rs as wholes.
use not_an_oak_fork.Base.{
  ℕ, ℤ, String, sym, ap, ◌∙◌, ◌≡◌, refl, subst, ◌↔◌, Option, some, List, Result, ok, err, panic,
  with_context, context-eq-ok, context-ok, ok-inj, some-inj, with_context-eq-ok, >>=-eq-ok, >>=-ok,
}
use not_an_oak_fork.Attestation.Values.{Endorsements, ReferenceValues, RootLayerEndorsements}
use not_an_oak_fork.Attestation.Expectations.{ExpectedValues}
use not_an_oak_fork.Attestation.Evidence.{
  TeePlatform, unspecified, amd_sev_snp, intel_tdx, no_tee, RootLayerEvidence, Evidence,
  EvidenceValues, CbData, ExtractedEvidence,
}
use not_an_oak_fork.Attestation.Externals.{Externals}
use not_an_oak_fork.Attestation.Expect.{get_expected_values}
use not_an_oak_fork.Attestation.CompareChain.{compare_expected_values}
use not_an_oak_fork.Attestation.CompareLaws.{IsHex}
use not_an_oak_fork.Attestation.KindLaws.{ChainAllowed, compare_expected_values-ChainAllowed}
use not_an_oak_fork.Attestation.PlatformLaws.{Genuine, verify_sev_snp_signature-Genuine}
use not_an_oak_fork.Attestation.VerifyLaws.{Attested, verify_dice_chain-Attested}
use not_an_oak_fork.Attestation.Verifier.{
  root_endorsements, verify, verify_platform, verify_root_attestation_signature, verify_dice_chain,
  AttestationResults, success, to_attestation_results,
}

with_context-ok-ok :
    {A : Type 0} (s : String) {m : Result A} {a : A} → m ≡ ok a → with_context s m ≡ ok a
with_context-ok-ok s h = rw h refl

-- What is checked of the root layer: the report of an AMD platform is genuine, no other platform
-- than that and none at all is supported, and without a platform nothing is checked.
abbrev pub PlatformChecked : (x : Externals) → TeePlatform → RootLayerEvidence → List ℕ → Type 0
PlatformChecked x unspecified root cert = ⊥
PlatformChecked x amd_sev_snp root cert = Genuine x root cert
PlatformChecked x intel_tdx root cert = ⊥
PlatformChecked x no_tee root cert = Unit {0}

module _ (x : Externals) where
  -- Everything that must hold for the evidence to be accepted, with what is extracted from it.
  abbrev pub Accepted :
      ℤ → Evidence → Option Endorsements → Option ReferenceValues → ExtractedEvidence → Type 0
  Accepted now evidence endorsements reference extracted =
      (chain : Endorsements) × (endorsements ≡ some chain)
      × (ends : RootLayerEndorsements) × (root_endorsements chain ≡ some ends)
      × (root : RootLayerEvidence) × (evidence.root_layer ≡ some root)
      × PlatformChecked x root.platform root ends.tee_certificate
      × Attested x evidence extracted
      × (expected : ExpectedValues) × (get_expected_values x now endorsements reference
          ≡ ok expected)
      × ChainAllowed x extracted.evidence_values (some expected)

module _ (x : Externals) (hex : IsHex x) where
  platform-checked :
      (p : TeePlatform) (root : RootLayerEvidence) (cert : List ℕ)
      → (verify_platform x p root cert ≡ ok tt) ↔ PlatformChecked x p root cert
  unfolding verify_platform
  platform-checked unspecified root cert = (λ h. cc, λ z. absurd z)
  platform-checked amd_sev_snp root cert = verify_sev_snp_signature-Genuine x root cert
  platform-checked intel_tdx root cert = (λ h. cc, λ z. absurd z)
  platform-checked no_tee root cert = (λ h. tt, λ z. refl)

  verify_root-PlatformChecked :
      (root : RootLayerEvidence) (cert : List ℕ)
      → (verify_root_attestation_signature x root cert ≡ ok tt)
        ↔ PlatformChecked x root.platform root cert
  unfolding verify_root_attestation_signature
  verify_root-PlatformChecked root cert = platform-checked root.platform root cert

  -- `verify` returns extracted evidence exactly when all of this holds: the endorsements and
  -- their root layer are there; the root layer's evidence is there and its platform checked (a
  -- genuine AMD report, or no platform at all); the DICE chain attests the extracted evidence;
  -- expected values can be computed from endorsements and reference values; and these allow the
  -- extracted evidence. The hex encoding is taken to be one-to-one and to encode no bytes by no
  -- digits.
  pub verify-Accepted :
      (now : ℤ) (e : Evidence) (s : Option Endorsements) (r : Option ReferenceValues)
      (v : ExtractedEvidence)
      → (verify x now e s r ≡ ok v) ↔ Accepted x now e s r v
  unfolding verify
  verify-Accepted now e s r v = (
    λ h.
        let (chain, e0, h0) = >>=-eq-ok _ _ h in
        let (ends, e1, h1) = >>=-eq-ok _ _ h0 in
        let (root, e2, h2) = >>=-eq-ok _ _ h1 in
        let (u, e3, h3) = >>=-eq-ok _ _ h2 in
        let (out, e4, h4) = >>=-eq-ok _ _ h3 in
        let (expected, e5, h5) = >>=-eq-ok _ _ h4 in
        let (w, e6, h6) = >>=-eq-ok _ _ h5 in
        let dice = with_context-eq-ok _ (verify_dice_chain x e) e4 ∙ h6 in
        let compared =
          subst (λ t. compare_expected_values x t (some expected) ≡ ok tt) (ok-inj h6) e6 in
        (
          chain,
          context-eq-ok _ _ e0,
          ends,
          context-eq-ok _ _ e1,
          root,
          context-eq-ok _ _ e2,
          (verify_root-PlatformChecked root ends.tee_certificate).0 e3,
          (verify_dice_chain-Attested x e v).0 dice,
          expected,
          e5,
          (compare_expected_values-ChainAllowed x hex v (some expected)).0 compared,
        ),
    λ z.
        let (chain, e0, ends, e1, root, e2, e3, a, expected, e5, c) = z in
        >>=-ok _ _ (context-ok _ _ e0) (
          >>=-ok _ _ (context-ok _ _ e1) (
            >>=-ok _ _ (context-ok _ _ e2) (
              >>=-ok _ _ ((verify_root-PlatformChecked root ends.tee_certificate).1 e3) (
                >>=-ok _ _ (with_context-ok-ok _ ((verify_dice_chain-Attested x e v).1 a)) (
                  >>=-ok _ _ e5 (
                    >>=-ok _ _ ((compare_expected_values-ChainAllowed x hex v (some expected)).1 c)
                      refl)))))),
  )

  -- Evidence that `verify` accepts is never that of a CB chain. The hex encoding is taken to be
  -- one-to-one and to encode no bytes by no digits.
  verify-not-cb :
      (now : ℤ) (e : Evidence) (s : Option Endorsements) (r : Option ReferenceValues)
      (v : ExtractedEvidence)
      → verify x now e s r ≡ ok v
      → (d : CbData) → ¬ (v.evidence_values ≡ some (EvidenceValues.cb d))
  verify-not-cb now e s r v h d c =
      let a = (verify-Accepted now e s r v).0 h in
      never_cb (a.8) (subst (λ t. ChainAllowed x t (some (a.8))) c (a.10))
    where
      never_cb : (f : ExpectedValues) → ¬ ChainAllowed x (some (EvidenceValues.cb d)) (some f)
      never_cb (ExpectedValues.oak_restricted_kernel f) z = z
      never_cb (ExpectedValues.oak_containers f) z = z
      never_cb (ExpectedValues.cb f) z = z

-- The results made of a verdict report success exactly when the verdict is extracted evidence,
-- and that evidence and its two public keys are then the ones in the results.
pub to_attestation_results-success :
    (r : Result ExtractedEvidence) (a : AttestationResults)
    → to_attestation_results r ≡ some a
    → (a.status ≡ success) ↔ (
        (v : ExtractedEvidence) × (r ≡ ok v)
        × (a.extracted_evidence ≡ some v)
        × (a.encryption_public_key ≡ v.encryption_public_key)
        × (a.signing_public_key ≡ v.signing_public_key))
unfolding to_attestation_results
to_attestation_results-success (ok v) a h =
    let r = sym (some-inj h) in
    (
      λ e. (
        v,
        refl,
        ap (λ t. t.extracted_evidence) r,
        ap (λ t. t.encryption_public_key) r,
        ap (λ t. t.signing_public_key) r,
      ),
      λ z. ap (λ t. t.status) r,
    )
to_attestation_results-success (err m) a h =
    (λ e. cc (e, ap (λ t. t.status) (some-inj h)), λ z. cc (z.1))
to_attestation_results-success panic a h = cc
