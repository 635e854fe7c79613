-- ===== src/Attestation/CompareChain.antt =====
-- The comparisons of oak_attestation_verification/src/verifier.rs for the upper layers and for
-- each kind of chain.
use not_an_oak_fork.Base.{Option, none, some, Result, bail, context, with_context, ◌>>=◌, ◌>>◌}
use not_an_oak_fork.Attestation.Expectations.{
  SystemLayerExpectedValues, ContainerLayerExpectedValues, ApplicationLayerExpectedValues,
  OakRestrictedKernelExpectedValues, OakContainersExpectedValues, CbExpectedValues, ExpectedValues,
}
use not_an_oak_fork.Attestation.Evidence.{
  ApplicationLayerData, SystemLayerData, ContainerLayerData, OakRestrictedKernelData,
  OakContainersData, CbData, EvidenceValues, ExtractedEvidence,
}
use not_an_oak_fork.Attestation.Externals.{Externals}
use not_an_oak_fork.Attestation.Compare.{
  compare_measurement_digest, compare_root_layer_measurement_digests,
  compare_kernel_layer_measurement_digests,
}

module _ (x : Externals) where
  unfoldable pub compare_system_layer_measurement_digests :
      SystemLayerData → SystemLayerExpectedValues → Result (Unit {0})
  compare_system_layer_measurement_digests values expected = do
    image ← context "no system image evidence value" values.system_image
    expected_image ← context "no expected system image value" expected.system_image
    with_context "system layer system image failed verification"
        (compare_measurement_digest x image expected_image)

  unfoldable pub compare_application_layer_measurement_digests :
      ApplicationLayerData → ApplicationLayerExpectedValues → Result (Unit {0})
  compare_application_layer_measurement_digests values expected = do
    binary ← context "no binary evidence value" values.binary
    expected_binary ← context "no expected binary value" expected.binary
    with_context "application layer binary failed verification"
        (compare_measurement_digest x binary expected_binary)
    config ← context "no config evidence value" values.config
    expected_config ← context "no expected config value" expected.configuration
    with_context "application layer config failed verification"
        (compare_measurement_digest x config expected_config)

  unfoldable pub compare_container_layer_measurement_digests :
      ContainerLayerData → ContainerLayerExpectedValues → Result (Unit {0})
  compare_container_layer_measurement_digests values expected = do
    bundle ← context "no bundle evidence value" values.bundle
    expected_bundle ← context "no expected bundle value" expected.bundle
    with_context "container bundle failed verification"
        (compare_measurement_digest x bundle expected_bundle)
    config ← context "no config evidence value" values.config
    expected_config ← context "no expected config value" expected.config
    with_context "container config failed verification"
        (compare_measurement_digest x config expected_config)

  unfoldable pub compare_oak_restricted_kernel_measurement_digests :
      OakRestrictedKernelData → OakRestrictedKernelExpectedValues → Result (Unit {0})
  compare_oak_restricted_kernel_measurement_digests values expected = do
    root ← context "no root layer evidence values" values.root_layer
    expected_root ← context "no root layer expected values" expected.root_layer
    compare_root_layer_measurement_digests x root expected_root
    kernel ← context "no kernel layer evidence values" values.kernel_layer
    expected_kernel ← context "no kernel layer expected values" expected.kernel_layer
    compare_kernel_layer_measurement_digests x kernel expected_kernel
    application ← context "no applications layer evidence values" values.application_layer
    expected_application ← context "no application layer expected values" expected.application_layer
    with_context "application layer verification failed"
        (compare_application_layer_measurement_digests application expected_application)

  unfoldable pub compare_oak_containers_measurement_digests :
      OakContainersData → OakContainersExpectedValues → Result (Unit {0})
  compare_oak_containers_measurement_digests values expected = do
    root ← context "no root layer evidence values" values.root_layer
    expected_root ← context "no root layer expected values" expected.root_layer
    compare_root_layer_measurement_digests x root expected_root
    kernel ← context "no kernel layer evidence values" values.kernel_layer
    expected_kernel ← context "no kernel layer expected_values" expected.kernel_layer
    compare_kernel_layer_measurement_digests x kernel expected_kernel
    system ← context "no system layer evidence values" values.system_layer
    expected_system ← context "no system layer expected_values" expected.system_layer
    with_context "system layer verification failed"
        (compare_system_layer_measurement_digests system expected_system)
    container ← context "no container layer evidence values" values.container_layer
    expected_container ← context "no system layer expected_values" expected.container_layer
    with_context "container layer verification failed"
        (compare_container_layer_measurement_digests container expected_container)

  unfoldable pub compare_cb_measurement_digests : CbData → CbExpectedValues → Result (Unit {0})
  compare_cb_measurement_digests values expected = do
    root ← context "no root layer evidence values" values.root_layer
    expected_root ← context "no root layer expected values" expected.root_layer
    with_context "root layer verification failed"
        (compare_root_layer_measurement_digests x root expected_root)
    bail "needs more implementation"

  unfoldable pub compare_values : Option EvidenceValues → Option ExpectedValues → Result (Unit {0})
  compare_values none expected = bail "Reference values are empty"
  compare_values (some v) none = bail "Expected values are empty"
  compare_values (some (EvidenceValues.oak_restricted_kernel v))
        (some (ExpectedValues.oak_restricted_kernel e)) =
      compare_oak_restricted_kernel_measurement_digests v e
  compare_values (some (EvidenceValues.oak_containers v)) (some (ExpectedValues.oak_containers e)) =
      compare_oak_containers_measurement_digests v e
  compare_values (some (EvidenceValues.cb v)) (some (ExpectedValues.cb e)) =
      compare_cb_measurement_digests v e
  compare_values (some v) (some e) =
      bail "Mismatch between evidence, endorsements and reference values"

  -- `expected` is the `oneof` of the message `ExpectedValues`.
  unfoldable pub compare_expected_values :
      ExtractedEvidence → Option ExpectedValues → Result (Unit {0})
  unfolding compare_values
  compare_expected_values extracted expected = compare_values extracted.evidence_values expected
