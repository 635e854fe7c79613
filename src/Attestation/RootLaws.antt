-- ===== src/Attestation/RootLaws.antt =====
-- What it takes for a root layer to be accepted.
use not_an_oak_fork.Base.{◌≡◌, refl, ◌↔◌, ◌⊎◌, true, false, Option, none, some, ok}
use not_an_oak_fork.Attestation.Digest.{empty_raw}
use not_an_oak_fork.Attestation.Values.{Empty}
use not_an_oak_fork.Attestation.Expectations.{
  ExpectedDigests, AmdSevExpectedValues, RootLayerExpectedValues,
}
use not_an_oak_fork.Attestation.Evidence.{
  AmdAttestationReport, Report, sev_snp, tdx, fake, RootLayerData,
}
use not_an_oak_fork.Attestation.Externals.{Externals}
use not_an_oak_fork.Attestation.Compare.{
  compare_measurement_digest, compare_sev_snp, compare_report,
  compare_root_layer_measurement_digests, verify_insecure, verify_intel_tdx_attestation_report,
}
use not_an_oak_fork.Attestation.CompareLaws.{
  AtLeast, IsHex, compare_measurement_digest-Allows, verify_amd_sev_attestation_report-ok,
}
use not_an_oak_fork.Attestation.LayerLaws.{Allowed, with_context-ok, then_ok}

-- What an SEV-SNP report must satisfy: its launch measurement is allowed, and so is the report.
abbrev pub SevSnpAllowed : AmdAttestationReport → AmdSevExpectedValues → Type 0
SevSnpAllowed r e =
    Allowed (some (record empty_raw { sha2_384 = r.initial_measurement })) e.stage0_expected
    × (r.vmpl ≡ 0)
    × ((e.allow_debug ≡ true) ⊎ (r.debug ≡ false))
    × AtLeast e.min_tcb_version r.reported_tcb

abbrev pub Present : Option Empty → Type 0
Present none = ⊥
Present (some i) = Unit {0}

-- A report of a platform that has expected values must satisfy them, which no TDX report does;
-- any other evidence is accepted when insecure evidence is.
abbrev pub ReportAllowed :
    Option Report → Option AmdSevExpectedValues → Option Empty → Option Empty → Type 0
ReportAllowed (some (sev_snp r)) (some amd) t i = SevSnpAllowed r amd
ReportAllowed (some (sev_snp r)) none t i = Present i
ReportAllowed (some (tdx r)) amd (some t) i = ⊥
ReportAllowed (some (tdx r)) amd none i = Present i
ReportAllowed (some (fake r)) amd t i = Present i
ReportAllowed none amd t i = Present i

abbrev pub RootAllowed : RootLayerData → RootLayerExpectedValues → Type 0
RootAllowed v e = ReportAllowed v.report e.amd_sev e.intel_tdx e.insecure

module _ (x : Externals) (hex : IsHex x) where
  stage0_fields :
      (r : AmdAttestationReport) (e : AmdSevExpectedValues) (o : Option ExpectedDigests)
      → (compare_sev_snp x r (record e { stage0_expected = o }) ≡ ok tt)
        ↔ SevSnpAllowed r (record e { stage0_expected = o })
  unfolding compare_sev_snp
  stage0_fields r e none = (λ h. cc, λ z. absurd z.0)
  stage0_fields r e (some d) =
      let m = record empty_raw { sha2_384 = r.initial_measurement } in
      let c = compare_measurement_digest-Allows x hex m d in
      let w = with_context-ok _ (compare_measurement_digest x m d) in
      let v = verify_amd_sev_attestation_report-ok r (record e { stage0_expected = some d }) in
      let q = then_ok _ _ in
      (
        λ h. let (a, b) = q.0 h in let z = v.0 b in (c.0 (w.0 a), z.0, z.1, z.2),
        λ z. q.1 (w.1 (c.1 z.0), v.1 (z.1, z.2, z.3)),
      )

  arms :
      (r : Option Report) (a : Option AmdSevExpectedValues) (t i : Option Empty)
      → (compare_report x r a t i ≡ ok tt) ↔ ReportAllowed r a t i
  unfolding compare_report verify_intel_tdx_attestation_report verify_insecure
  arms (some (sev_snp r)) (some amd) t i = stage0_fields r amd amd.stage0_expected
  arms (some (sev_snp r)) none t (some i) = (λ h. tt, λ z. refl)
  arms (some (sev_snp r)) none t none = (λ h. cc, λ z. absurd z)
  arms (some (tdx r)) a (some t) i = (λ h. cc, λ z. absurd z)
  arms (some (tdx r)) a none (some i) = (λ h. tt, λ z. refl)
  arms (some (tdx r)) a none none = (λ h. cc, λ z. absurd z)
  arms (some (fake r)) a t (some i) = (λ h. tt, λ z. refl)
  arms (some (fake r)) a t none = (λ h. cc, λ z. absurd z)
  arms none a t (some i) = (λ h. tt, λ z. refl)
  arms none a t none = (λ h. cc, λ z. absurd z)

  pub compare_root_layer-Allowed :
      (v : RootLayerData) (e : RootLayerExpectedValues)
      → (compare_root_layer_measurement_digests x v e ≡ ok tt) ↔ RootAllowed v e
  unfolding compare_root_layer_measurement_digests
  compare_root_layer-Allowed v e = arms v.report e.amd_sev e.intel_tdx e.insecure
