-- ===== src/Attestation/KindLaws.antt =====
-- What it takes for a whole chain of measurements to be accepted.
use not_an_oak_fork.Base.{String, ◌≡◌, ◌↔◌, Option, none, some, ok, bail}
use not_an_oak_fork.Attestation.Expectations.{
  ApplicationLayerExpectedValues, SystemLayerExpectedValues, ContainerLayerExpectedValues,
  OakRestrictedKernelExpectedValues, OakContainersExpectedValues, CbExpectedValues, ExpectedValues,
}
use not_an_oak_fork.Attestation.Evidence.{
  ApplicationLayerData, SystemLayerData, ContainerLayerData, OakRestrictedKernelData,
  OakContainersData, CbData, EvidenceValues, ExtractedEvidence,
}
use not_an_oak_fork.Attestation.Externals.{Externals}
use not_an_oak_fork.Attestation.CompareChain.{
  compare_oak_restricted_kernel_measurement_digests, compare_oak_containers_measurement_digests,
  compare_cb_measurement_digests, compare_values, compare_expected_values,
}
use not_an_oak_fork.Attestation.CompareLaws.{IsHex}
use not_an_oak_fork.Attestation.LayerLaws.{
  Both, Both-then, Both-last, with_context_iff, Allowed, KernelAllowed,
  compare_kernel_layer-Allowed, compare_application_layer-Allowed, compare_system_layer-Allowed,
  compare_container_layer-Allowed,
}
use not_an_oak_fork.Attestation.RootLaws.{RootAllowed, compare_root_layer-Allowed}

abbrev pub ApplicationAllowed : ApplicationLayerData → ApplicationLayerExpectedValues → Type 0
ApplicationAllowed v e = Allowed v.binary e.binary × Allowed v.config e.configuration

abbrev pub SystemAllowed : SystemLayerData → SystemLayerExpectedValues → Type 0
SystemAllowed v e = Allowed v.system_image e.system_image

abbrev pub ContainerAllowed : ContainerLayerData → ContainerLayerExpectedValues → Type 0
ContainerAllowed v e = Allowed v.bundle e.bundle × Allowed v.config e.config

bail_not_ok : (s : String) → ¬ (bail {A = Unit {0}} s ≡ ok tt)
bail_not_ok s h = cc

module _ (x : Externals) where
  abbrev pub RestrictedKernelAllowed :
      OakRestrictedKernelData → OakRestrictedKernelExpectedValues → Type 0
  RestrictedKernelAllowed v e =
      Both RootAllowed v.root_layer e.root_layer
      × Both (λ k f. KernelAllowed x k f.kernel f) v.kernel_layer e.kernel_layer
      × Both ApplicationAllowed v.application_layer e.application_layer

  abbrev pub ContainersAllowed : OakContainersData → OakContainersExpectedValues → Type 0
  ContainersAllowed v e =
      Both RootAllowed v.root_layer e.root_layer
      × Both (λ k f. KernelAllowed x k f.kernel f) v.kernel_layer e.kernel_layer
      × Both SystemAllowed v.system_layer e.system_layer
      × Both ContainerAllowed v.container_layer e.container_layer

  -- The evidence is of the same kind as the expected values, each of its layers is there with
  -- expected values for it, and they allow it; no evidence of a CB chain is allowed.
  abbrev pub ChainAllowed : Option EvidenceValues → Option ExpectedValues → Type 0
  ChainAllowed v none = ⊥
  ChainAllowed (some (EvidenceValues.oak_restricted_kernel v))
        (some (ExpectedValues.oak_restricted_kernel e)) =
      RestrictedKernelAllowed v e
  ChainAllowed (some (EvidenceValues.oak_containers v)) (some (ExpectedValues.oak_containers e)) =
      ContainersAllowed v e
  ChainAllowed _ _ = ⊥

module _ (x : Externals) (hex : IsHex x) where
  pub compare_restricted_kernel-Allowed :
      (v : OakRestrictedKernelData) (e : OakRestrictedKernelExpectedValues)
      → (compare_oak_restricted_kernel_measurement_digests x v e ≡ ok tt)
        ↔ RestrictedKernelAllowed x v e
  unfolding compare_oak_restricted_kernel_measurement_digests
  compare_restricted_kernel-Allowed v e =
      let root = Both-then (compare_root_layer-Allowed x hex) _ _ v.root_layer e.root_layer _ in
      let kernel =
        Both-then (compare_kernel_layer-Allowed x hex) _ _ v.kernel_layer e.kernel_layer _ in
      let application =
        Both-last (with_context_iff _ (compare_application_layer-Allowed x hex)) _ _
          v.application_layer e.application_layer in
      (
        λ h. let (a, h1) = root.0 h in let (b, h2) = kernel.0 h1 in (a, b, application.0 h2),
        λ z. root.1 (z.0, kernel.1 (z.1, application.1 z.2)),
      )

  pub compare_containers-Allowed :
      (v : OakContainersData) (e : OakContainersExpectedValues)
      → (compare_oak_containers_measurement_digests x v e ≡ ok tt) ↔ ContainersAllowed x v e
  unfolding compare_oak_containers_measurement_digests
  compare_containers-Allowed v e =
      let root = Both-then (compare_root_layer-Allowed x hex) _ _ v.root_layer e.root_layer _ in
      let kernel =
        Both-then (compare_kernel_layer-Allowed x hex) _ _ v.kernel_layer e.kernel_layer _ in
      let system =
        Both-then (with_context_iff _ (compare_system_layer-Allowed x hex)) _ _ v.system_layer
          e.system_layer _ in
      let container =
        Both-last (with_context_iff _ (compare_container_layer-Allowed x hex)) _ _ v.container_layer
          e.container_layer in
      (
        λ h.
            let (a, h1) = root.0 h in
            let (b, h2) = kernel.0 h1 in let (c, h3) = system.0 h2 in (a, b, c, container.0 h3),
        λ z. root.1 (z.0, kernel.1 (z.1, system.1 (z.2, container.1 z.3))),
      )

  cb-refused :
      (v : CbData) (e : CbExpectedValues) → ¬ (compare_cb_measurement_digests x v e ≡ ok tt)
  unfolding compare_cb_measurement_digests
  cb-refused v e h =
      let c =
        Both-then (with_context_iff _ (compare_root_layer-Allowed x hex)) _ _ v.root_layer
          e.root_layer _ in
      bail_not_ok _ (c.0 h).1

  -- The comparison of extracted evidence with expected values succeeds exactly when both are of
  -- the same kind, restricted kernel or containers, and each layer of that kind is present on
  -- both sides and allowed; it never does for a CB chain. The hex encoding is taken to be
  -- one-to-one and to encode no bytes by no digits.
  pub compare_expected_values-ChainAllowed :
      (v : ExtractedEvidence) (e : Option ExpectedValues)
      → (compare_expected_values x v e ≡ ok tt) ↔ ChainAllowed x v.evidence_values e
  unfolding compare_expected_values compare_values
  compare_expected_values-ChainAllowed v e = kinds v.evidence_values e
    where
      kinds :
          (v : Option EvidenceValues) (e : Option ExpectedValues)
          → (compare_values x v e ≡ ok tt) ↔ ChainAllowed x v e
      kinds none none = (λ h. cc, λ z. absurd z)
      kinds none (some e) = (λ h. cc, λ z. absurd z)
      kinds (some v) none = (λ h. cc, λ z. absurd z)
      kinds (some (EvidenceValues.oak_restricted_kernel v))
            (some (ExpectedValues.oak_restricted_kernel e)) =
          compare_restricted_kernel-Allowed v e
      kinds (some (EvidenceValues.oak_containers v)) (some (ExpectedValues.oak_containers e)) =
          compare_containers-Allowed v e
      kinds (some (EvidenceValues.cb v)) (some (ExpectedValues.cb e)) =
          (λ h. absurd (cb-refused v e h), λ z. absurd z)
      kinds (some (EvidenceValues.oak_restricted_kernel v))
            (some (ExpectedValues.oak_containers e)) =
          (λ h. cc, λ z. absurd z)
      kinds (some (EvidenceValues.oak_restricted_kernel v)) (some (ExpectedValues.cb e)) =
          (λ h. cc, λ z. absurd z)
      kinds (some (EvidenceValues.oak_containers v))
            (some (ExpectedValues.oak_restricted_kernel e)) =
          (λ h. cc, λ z. absurd z)
      kinds (some (EvidenceValues.oak_containers v)) (some (ExpectedValues.cb e)) =
          (λ h. cc, λ z. absurd z)
      kinds (some (EvidenceValues.cb v)) (some (ExpectedValues.oak_restricted_kernel e)) =
          (λ h. cc, λ z. absurd z)
      kinds (some (EvidenceValues.cb v)) (some (ExpectedValues.oak_containers e)) =
          (λ h. cc, λ z. absurd z)
