-- ===== src/Attestation/Expect/Layers.antt =====
-- Expected values of whole layers, and of each kind of chain.
use not_an_oak_fork.Base.{ℤ, Option, none, some, Result, ok, bail, context, with_context, ◌>>=◌}
use not_an_oak_fork.Attestation.Values.{
  Empty, empty, AmdSevReferenceValues, RootLayerReferenceValues, KernelLayerReferenceValues,
  SystemLayerReferenceValues, ApplicationLayerReferenceValues, ContainerLayerReferenceValues,
  OakRestrictedKernelReferenceValues, OakContainersReferenceValues, CbReferenceValues,
  ReferenceValues, RootLayerEndorsements, KernelLayerEndorsements, SystemLayerEndorsements,
  ApplicationLayerEndorsements, ContainerLayerEndorsements, OakRestrictedKernelEndorsements,
  OakContainersEndorsements, CbEndorsements, Endorsements,
}
use not_an_oak_fork.Attestation.Expectations.{
  AmdSevExpectedValues, RootLayerExpectedValues, KernelLayerExpectedValues,
  SystemLayerExpectedValues, ContainerLayerExpectedValues, ApplicationLayerExpectedValues,
  OakRestrictedKernelExpectedValues, OakContainersExpectedValues, CbExpectedValues, ExpectedValues,
}
use not_an_oak_fork.Attestation.Externals.{Externals}
use not_an_oak_fork.Attestation.Expect.Digests.{
  get_expected_measurement_digest, get_stage0_expected_values, get_kernel_expected_values,
  get_text_expected_values,
}

-- `endorsements.and_then(|value| value.field.as_ref())`
abbrev pub field_of : {A B : Type 0} → Option A → (A → Option B) → Option B
field_of none f = none
field_of (some a) f = f a

abbrev present : {A : Type 0} → Option A → Option Empty
present none = none
present (some a) = some empty

module _ (x : Externals) (now : ℤ) where
  unfoldable pub get_amd_sev :
      Option RootLayerEndorsements
      → Option AmdSevReferenceValues
      → Result (Option AmdSevExpectedValues)
  get_amd_sev endorsements none = ok none
  get_amd_sev endorsements (some amd) = do
    stage0 ← context "stage0 binary reference values not found" amd.stage0
    expected ← get_stage0_expected_values x now (field_of endorsements (λ e. e.stage0)) stage0
    ok (
        some (record {
          stage0_expected = some expected;
          min_tcb_version = amd.min_tcb_version;
          allow_debug = amd.allow_debug;
        }))

  unfoldable pub get_root_layer_expected_values :
      Option RootLayerEndorsements → RootLayerReferenceValues → Result RootLayerExpectedValues
  unfolding get_amd_sev
  get_root_layer_expected_values endorsements reference = do
    amd_sev ← get_amd_sev endorsements reference.amd_sev
    ok (record {
      amd_sev = amd_sev;
      intel_tdx = present reference.intel_tdx;
      insecure = present reference.insecure;
    })

  unfoldable pub get_kernel_layer_expected_values :
      Option KernelLayerEndorsements → KernelLayerReferenceValues → Result KernelLayerExpectedValues
  get_kernel_layer_expected_values endorsements reference = do
    kernel_reference ← context "no kernel reference value" reference.kernel
    kernel ←
        with_context "failed to get kernel expected values" (
          get_kernel_expected_values x now (field_of endorsements (λ e. e.kernel)) kernel_reference)
    cmd_line_reference ←
        context "no kernel command line text reference values" reference.kernel_cmd_line_text
    cmd_line ← with_context "failed to get kernel cmd line expected value" (
        get_text_expected_values x now cmd_line_reference
          (field_of endorsements (λ e. e.kernel_cmd_line)))
    init_reference ← context "no initial RAM disk reference value" reference.init_ram_fs
    init_ram_fs ← with_context "failed to get initramfs expected value" (
        get_expected_measurement_digest x now (field_of endorsements (λ e. e.init_ram_fs))
          init_reference)
    map_reference ← context "no memory map reference value" reference.memory_map
    memory_map ← with_context "failed to get memory map expected value" (
        get_expected_measurement_digest x now (field_of endorsements (λ e. e.memory_map))
          map_reference)
    acpi_reference ← context "no ACPI reference value" reference.acpi
    acpi ←
        with_context "failed to get ACPI table expected value" (
          get_expected_measurement_digest x now (field_of endorsements (λ e. e.acpi))
            acpi_reference)
    ok (record {
      kernel = some kernel;
      kernel_cmd_line_text = some cmd_line;
      init_ram_fs = some init_ram_fs;
      memory_map = some memory_map;
      acpi = some acpi;
    })

  unfoldable pub get_system_layer_expected_values :
      Option SystemLayerEndorsements → SystemLayerReferenceValues → Result SystemLayerExpectedValues
  get_system_layer_expected_values endorsements reference = do
    image ← context "container bundle reference value" reference.system_image
    system_image ←
        get_expected_measurement_digest x now (field_of endorsements (λ e. e.system_image)) image
    ok (record { system_image = some system_image })

  unfoldable pub get_application_layer_expected_values :
      Option ApplicationLayerEndorsements
      → ApplicationLayerReferenceValues
      → Result ApplicationLayerExpectedValues
  get_application_layer_expected_values endorsements reference = do
    binary_reference ← context "container bundle reference value" reference.binary
    binary ←
        get_expected_measurement_digest x now (field_of endorsements (λ e. e.binary))
          binary_reference
    config_reference ← context "container bundle reference value" reference.configuration
    configuration ←
        get_expected_measurement_digest x now (field_of endorsements (λ e. e.configuration))
          config_reference
    ok (record { binary = some binary; configuration = some configuration })

  -- The source looks the configuration's endorsement up under `binary`, as that of the bundle.
  unfoldable pub get_container_layer_expected_values :
      Option ContainerLayerEndorsements
      → ContainerLayerReferenceValues
      → Result ContainerLayerExpectedValues
  get_container_layer_expected_values endorsements reference = do
    bundle_reference ← context "container bundle reference value" reference.binary
    bundle ←
        get_expected_measurement_digest x now (field_of endorsements (λ e. e.binary))
          bundle_reference
    config_reference ← context "container config reference value" reference.configuration
    config ←
        get_expected_measurement_digest x now (field_of endorsements (λ e. e.binary))
          config_reference
    ok (record { bundle = some bundle; config = some config })

  unfoldable pub get_oak_restricted_kernel_expected_values :
      OakRestrictedKernelEndorsements
      → OakRestrictedKernelReferenceValues
      → Result OakRestrictedKernelExpectedValues
  get_oak_restricted_kernel_expected_values endorsements reference = do
    root_reference ← context "no root layer reference values" reference.root_layer
    root_layer ← get_root_layer_expected_values endorsements.root_layer root_reference
    kernel_reference ← context "no kernel layer reference values" reference.kernel_layer
    kernel_layer ← get_kernel_layer_expected_values endorsements.kernel_layer kernel_reference
    application_reference ←
        context "no application layer reference values" reference.application_layer
    application_layer ←
        get_application_layer_expected_values endorsements.application_layer application_reference
    ok (record {
      root_layer = some root_layer;
      kernel_layer = some kernel_layer;
      application_layer = some application_layer;
    })

  unfoldable pub get_oak_containers_expected_values :
      OakContainersEndorsements → OakContainersReferenceValues → Result OakContainersExpectedValues
  get_oak_containers_expected_values endorsements reference = do
    root_reference ← context "no root layer reference values" reference.root_layer
    root_layer ← get_root_layer_expected_values endorsements.root_layer root_reference
    kernel_reference ← context "no kernel layer reference values" reference.kernel_layer
    kernel_layer ← get_kernel_layer_expected_values endorsements.kernel_layer kernel_reference
    system_reference ← context "no application layer reference values" reference.system_layer
    system_layer ← get_system_layer_expected_values endorsements.system_layer system_reference
    container_reference ← context "no kernel layer reference values" reference.container_layer
    container_layer ←
        get_container_layer_expected_values endorsements.container_layer container_reference
    ok (record {
      root_layer = some root_layer;
      kernel_layer = some kernel_layer;
      system_layer = some system_layer;
      container_layer = some container_layer;
    })

  unfoldable pub get_cb_expected_values :
      CbEndorsements → CbReferenceValues → Result CbExpectedValues
  get_cb_expected_values endorsements reference = do
    root_reference ← context "no root layer reference values" reference.root_layer
    root_layer ← get_root_layer_expected_values endorsements.root_layer root_reference
    ok (record { root_layer = some root_layer })

  unfoldable pub get_expected_values :
      Option Endorsements → Option ReferenceValues → Result ExpectedValues
  get_expected_values none reference = bail "Endorsements are empty"
  get_expected_values (some e) none = bail "Reference values are empty"
  get_expected_values (some (Endorsements.oak_restricted_kernel e))
        (some (ReferenceValues.oak_restricted_kernel r)) =
      do
        expected ← get_oak_restricted_kernel_expected_values e r
        ok (ExpectedValues.oak_restricted_kernel expected)
  get_expected_values (some (Endorsements.oak_containers e))
        (some (ReferenceValues.oak_containers r)) =
      do
        expected ← get_oak_containers_expected_values e r
        ok (ExpectedValues.oak_containers expected)
  get_expected_values (some (Endorsements.cb e)) (some (ReferenceValues.cb r)) = do
    expected ← get_cb_expected_values e r
    ok (ExpectedValues.cb expected)
  get_expected_values (some e) (some r) =
      bail "Mismatch between evidence, endorsements and reference values"
