-- ===== src/Attestation/LayerLaws.antt =====
-- What it takes for whole layers of measurements to be accepted.
use not_an_oak_fork.Base.{
  String, ◌≡◌, refl, ◌↔◌, Option, none, some, Result, ok, err, panic, context, with_context,
  with_context-eq-ok, ◌>>=◌, ◌>>◌,
}
use not_an_oak_fork.Attestation.Digest.{RawDigest}
use not_an_oak_fork.Attestation.Expectations.{
  ExpectedDigests, KernelExpectedValues, KernelLayerExpectedValues, SystemLayerExpectedValues,
  ContainerLayerExpectedValues, ApplicationLayerExpectedValues,
}
use not_an_oak_fork.Attestation.Evidence.{
  KernelLayerData, ApplicationLayerData, SystemLayerData, ContainerLayerData,
}
use not_an_oak_fork.Attestation.Externals.{Externals}
use not_an_oak_fork.Attestation.Compare.{
  compare_measurement_digest, compare_cmd_line, compare_kernel_layer_measurement_digests,
}
use not_an_oak_fork.Attestation.CompareChain.{
  compare_system_layer_measurement_digests, compare_application_layer_measurement_digests,
  compare_container_layer_measurement_digests,
}
use not_an_oak_fork.Attestation.CompareLaws.{
  Allows, AllowsText, text_of, IsHex, compare_measurement_digest-Allows,
  compare_cmd_line-AllowsText,
}

-- Both values are there, and they are related.
abbrev pub Both : {A B : Type 0} → (A → B → Type 0) → Option A → Option B → Type 0
Both P none e = ⊥
Both P (some v) none = ⊥
Both P (some v) (some e) = P v e

-- The measured value is there and the expected one allows it.
abbrev pub Allowed : Option RawDigest → Option ExpectedDigests → Type 0
Allowed = Both (λ m e. Allows e.type m)

pub with_context-ok :
    (s : String) (r : Result (Unit {0})) → (with_context s r ≡ ok tt) ↔ (r ≡ ok tt)
with_context-ok s r = (λ h. with_context-eq-ok s r h, λ h. rw h refl)

pub then_ok : (r k : Result (Unit {0})) → ((r >> k) ≡ ok tt) ↔ ((r ≡ ok tt) × (k ≡ ok tt))
then_ok (ok u) k = (λ h. (refl, h), λ z. z.1)
then_ok (err e) k = (λ h. cc, λ z. cc (z.0))
then_ok panic k = (λ h. cc, λ z. cc (z.0))

-- What a kernel layer must satisfy.
abbrev pub KernelAllowed :
    Externals → KernelLayerData → Option KernelExpectedValues → KernelLayerExpectedValues → Type 0
KernelAllowed x v none e = ⊥
KernelAllowed x v (some k) e =
    Allowed v.kernel_image k.image
    × Allowed v.kernel_setup_data k.setup_data
    × AllowsText x (text_of e.kernel_cmd_line_text) v.kernel_raw_cmd_line
    × Allowed v.init_ram_fs e.init_ram_fs
    × Allowed v.memory_map e.memory_map
    × Allowed v.acpi e.acpi

-- one comparison of two required values, with the rest of the block behind it
pub Both-then :
    {A B : Type 0} {P : A → B → Type 0} {f : A → B → Result (Unit {0})}
    → ((v : A) (e : B) → (f v e ≡ ok tt) ↔ P v e)
    → (s t : String) (o : Option A) (p : Option B) (k : Result (Unit {0}))
    → ((context s o >>= λ v. context t p >>= λ e. (f v e >> k)) ≡ ok tt)
      ↔ (Both P o p × (k ≡ ok tt))
Both-then c s t none p k = (λ h. cc, λ z. absurd z.0)
Both-then c s t (some m) none k = (λ h. cc, λ z. absurd z.0)
Both-then c s t (some m) (some e) k =
    let q = then_ok _ k in
    (λ h. let z = q.0 h in ((c m e).0 z.0, z.1), λ z. q.1 ((c m e).1 z.0, z.1))

pub Both-last :
    {A B : Type 0} {P : A → B → Type 0} {f : A → B → Result (Unit {0})}
    → ((v : A) (e : B) → (f v e ≡ ok tt) ↔ P v e)
    → (s t : String) (o : Option A) (p : Option B)
    → ((context s o >>= λ v. context t p >>= λ e. f v e) ≡ ok tt) ↔ Both P o p
Both-last c s t none p = (λ h. cc, λ z. absurd z)
Both-last c s t (some m) none = (λ h. cc, λ z. absurd z)
Both-last c s t (some m) (some e) = c m e

-- a context does not change what is accepted
pub with_context_iff :
    {A B : Type 0} {P : A → B → Type 0} {f : A → B → Result (Unit {0})} (s : String)
    → ((v : A) (e : B) → (f v e ≡ ok tt) ↔ P v e)
    → (v : A) (e : B) → (with_context s (f v e) ≡ ok tt) ↔ P v e
with_context_iff s c v e =
    let w = with_context-ok s _ in (λ h. (c v e).0 (w.0 h), λ z. w.1 ((c v e).1 z))

module _ (x : Externals) (hex : IsHex x) where
  digests_iff :
      (s : String) (m : RawDigest) (e : ExpectedDigests)
      → (with_context s (compare_measurement_digest x m e) ≡ ok tt) ↔ Allows e.type m
  digests_iff s = with_context_iff s (compare_measurement_digest-Allows x hex)

  kernel_fields :
      (v : KernelLayerData) (e : KernelLayerExpectedValues) (k : Option KernelExpectedValues)
      → (compare_kernel_layer_measurement_digests x v (record e { kernel = k }) ≡ ok tt)
        ↔ KernelAllowed x v k e
  unfolding compare_kernel_layer_measurement_digests
  kernel_fields v e none = (λ h. cc, λ z. absurd z)
  kernel_fields v e (some k) =
      let image = Both-then (digests_iff _) _ _ v.kernel_image k.image _ in
      let setup = Both-then (digests_iff _) _ _ v.kernel_setup_data k.setup_data _ in
      let line = compare_cmd_line-AllowsText x v.kernel_raw_cmd_line e.kernel_cmd_line_text in
      let line_then = then_ok (compare_cmd_line x v.kernel_raw_cmd_line e.kernel_cmd_line_text) _ in
      let init = Both-then (digests_iff _) _ _ v.init_ram_fs e.init_ram_fs _ in
      let map = Both-then (digests_iff _) _ _ v.memory_map e.memory_map _ in
      let acpi = Both-last (digests_iff _) _ _ v.acpi e.acpi in
      (
        λ h.
            let (a, h1) = image.0 h in
            let (b, h2) = setup.0 h1 in
            let (c, h3) = line_then.0 h2 in
            let (d, h4) = init.0 h3 in let (m, h5) = map.0 h4 in (a, b, line.0 c, d, m, acpi.0 h5),
        λ z.
            image.1
              (z.0, setup.1 (z.1, line_then.1 (line.1 z.2, init.1 (z.3, map.1 (z.4, acpi.1 z.5))))),
      )

  -- A kernel layer is accepted exactly when there are kernel values and the kernel image, the
  -- setup data, the command line, the initial RAM disk, the memory map and the ACPI tables are
  -- each allowed by the expected value of their own name; all but the command line must be
  -- measured. The hex encoding is taken to be one-to-one and to encode no bytes by no digits.
  pub compare_kernel_layer-Allowed :
      (v : KernelLayerData) (e : KernelLayerExpectedValues)
      → (compare_kernel_layer_measurement_digests x v e ≡ ok tt) ↔ KernelAllowed x v e.kernel e
  compare_kernel_layer-Allowed v e = kernel_fields v e e.kernel

  -- An application layer is accepted exactly when the binary and the configuration are each
  -- measured and each allowed.
  pub compare_application_layer-Allowed :
      (v : ApplicationLayerData) (e : ApplicationLayerExpectedValues)
      → (compare_application_layer_measurement_digests x v e ≡ ok tt)
        ↔ (Allowed v.binary e.binary × Allowed v.config e.configuration)
  unfolding compare_application_layer_measurement_digests
  compare_application_layer-Allowed v e =
      let binary = Both-then (digests_iff _) _ _ v.binary e.binary _ in
      let config = Both-last (digests_iff _) _ _ v.config e.configuration in
      (λ h. let (b, k) = binary.0 h in (b, config.0 k), λ z. binary.1 (z.0, config.1 z.1))

  pub compare_system_layer-Allowed :
      (v : SystemLayerData) (e : SystemLayerExpectedValues)
      → (compare_system_layer_measurement_digests x v e ≡ ok tt)
        ↔ Allowed v.system_image e.system_image
  unfolding compare_system_layer_measurement_digests
  compare_system_layer-Allowed v e = Both-last (digests_iff _) _ _ v.system_image e.system_image

  pub compare_container_layer-Allowed :
      (v : ContainerLayerData) (e : ContainerLayerExpectedValues)
      → (compare_container_layer_measurement_digests x v e ≡ ok tt)
        ↔ (Allowed v.bundle e.bundle × Allowed v.config e.config)
  unfolding compare_container_layer_measurement_digests
  compare_container_layer-Allowed v e =
      let bundle = Both-then (digests_iff _) _ _ v.bundle e.bundle _ in
      let config = Both-last (digests_iff _) _ _ v.config e.config in
      (λ h. let (b, k) = bundle.0 h in (b, config.0 k), λ z. bundle.1 (z.0, config.1 z.1))
