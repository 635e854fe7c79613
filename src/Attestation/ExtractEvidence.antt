-- ===== src/Attestation/ExtractEvidence.antt =====
-- `extract_evidence` of oak_attestation_verification/src/verifier.rs, and what it calls.
use not_an_oak_fork.Base.{
  ℕ, String, some, List, [], ◌∷◌, Result, ok, err, bail, panic, context, with_context, ◌>>=◌, ◌>>◌,
}
use not_an_oak_fork.Attestation.Values
use not_an_oak_fork.Attestation.Report.{AttestationReport, TcbVersion, validate, has_debug_flag}
use not_an_oak_fork.Attestation.Evidence.{
  TeePlatform, unspecified, amd_sev_snp, intel_tdx, no_tee, RootLayerEvidence, LayerEvidence,
  ApplicationKeys, Evidence, sev_snp, fake, RootLayerData, ContainerLayerData, ApplicationLayerData,
  EvidenceValues, ExtractedEvidence,
}
use not_an_oak_fork.Attestation.Externals.{Externals, ClaimsSet}
use not_an_oak_fork.Attestation.Cert.{
  cose_key_to_hpke_public_key, cose_key_to_verifying_key, get_public_key_from_claims_set,
}
use not_an_oak_fork.Attestation.Extract.{
  extract_kernel_values, extract_system_layer_data, extract_container_layer_data,
  extract_application_layer_data,
}

abbrev tcb_of : TcbVersion → Values.TcbVersion
tcb_of t = record { boot_loader = t.boot_loader; tee = t.tee; snp = t.snp; microcode = t.microcode }

pub record ApplicationKeyValues : Type 0 where
  pub encryption_public_key : List ℕ
  pub signing_public_key : List ℕ

module _ (x : Externals) where
  -- a report of the right size and a valid format
  unfoldable pub read_report : String → List ℕ → Result AttestationReport
  read_report invalid bytes = do
    report ← context invalid (x.report_from_bytes bytes)
    validate report
    ok report

  unfoldable pub extract_platform_values : TeePlatform → List ℕ → Result RootLayerData
  unfolding read_report
  extract_platform_values unspecified bytes = bail "unspecified TEE platform"
  extract_platform_values intel_tdx bytes = bail "not supported"
  extract_platform_values amd_sev_snp bytes = do
    report ← read_report "invalid AMD SEV-SNP attestation report" bytes
    debug ← has_debug_flag report
    ok (record {
      report = some (
          sev_snp (record {
            report_data = report.report_body.report_data;
            current_tcb = some (tcb_of report.report_body.current_tcb);
            reported_tcb = some (tcb_of report.report_body.reported_tcb);
            debug = debug;
            initial_measurement = report.report_body.measurement;
            hardware_id = report.report_body.chip_id;
            vmpl = report.report_body.vmpl;
          }));
    })
  extract_platform_values no_tee bytes = do
    report ← read_report "invalid fake attestation report" bytes
    ok (record { report = some (fake report.report_body.report_data) })

  unfoldable pub extract_root_values : RootLayerEvidence → Result RootLayerData
  unfolding extract_platform_values
  extract_root_values root = extract_platform_values root.platform root.remote_attestation_report

  unfoldable pub claims_set_from_serialized_cert : List ℕ → Result ClaimsSet
  claims_set_from_serialized_cert slice = do
    cert ← context "could not parse certificate" (x.cose_sign1_from_slice slice)
    payload ← context "no signing cert payload" cert.payload
    context "could not parse claims set" (x.claims_from_slice payload)

  unfoldable pub extract_application_key_values : ApplicationKeys → Result ApplicationKeyValues
  unfolding claims_set_from_serialized_cert
  extract_application_key_values keys = do
    encryption_claims ← claims_set_from_serialized_cert keys.encryption_public_key_certificate
    encryption_cose_key ← get_public_key_from_claims_set x encryption_claims
    encryption_public_key ← cose_key_to_hpke_public_key encryption_cose_key
    signing_claims ← claims_set_from_serialized_cert keys.signing_public_key_certificate
    signing_cose_key ← get_public_key_from_claims_set x signing_claims
    signing_verifying_key ← cose_key_to_verifying_key x signing_cose_key
    ok (record {
      encryption_public_key = encryption_public_key;
      signing_public_key = x.key_to_sec1 signing_verifying_key;
    })

  -- an Oak Containers chain: two DICE layers under the container's
  unfoldable pub containers_values :
      RootLayerData → ContainerLayerData → List LayerEvidence → Result EvidenceValues
  containers_values root container (kernel ∷ system ∷ []) = do
    kernel_claims ←
        with_context "couldn't parse kernel DICE layer certificate"
          (claims_set_from_serialized_cert kernel.eca_certificate)
    kernel_layer ←
        with_context "couldn't extract kernel values" (extract_kernel_values kernel_claims)
    system_claims ←
        with_context "couldn't parse system DICE layer certificate"
          (claims_set_from_serialized_cert system.eca_certificate)
    system_layer ←
        with_context "couldn't extract system layer values"
          (extract_system_layer_data system_claims)
    ok (
        EvidenceValues.oak_containers (record {
          root_layer = some root;
          kernel_layer = some kernel_layer;
          system_layer = some system_layer;
          container_layer = some container;
        }))
  containers_values root container _ = bail "incorrect number of DICE layers for Oak Containers"

  -- a restricted kernel chain: one DICE layer under the application's
  unfoldable pub restricted_kernel_values :
      RootLayerData → ApplicationLayerData → List LayerEvidence → Result EvidenceValues
  restricted_kernel_values root application (kernel ∷ []) = do
    kernel_claims ←
        with_context "couldn't parse kernel DICE layer certificate"
          (claims_set_from_serialized_cert kernel.eca_certificate)
    kernel_layer ←
        with_context "couldn't extract kernel values" (extract_kernel_values kernel_claims)
    ok (
        EvidenceValues.oak_restricted_kernel (record {
          root_layer = some root;
          kernel_layer = some kernel_layer;
          application_layer = some application;
        }))
  restricted_kernel_values root application _ =
      bail "incorrect number of DICE layers for Oak Containers"

  -- `if let Ok(…) = … else if let Ok(…) = … else …`
  unfoldable pub values_by_kind :
      RootLayerData
      → List LayerEvidence
      → Result ContainerLayerData
      → Result ApplicationLayerData
      → Result EvidenceValues
  unfolding containers_values restricted_kernel_values
  values_by_kind root layers (ok container) application = containers_values root container layers
  values_by_kind root layers panic application = panic
  values_by_kind root layers (err e) (ok application) =
      restricted_kernel_values root application layers
  values_by_kind root layers (err e) panic = panic
  values_by_kind root layers (err e) (err f) =
      ok (EvidenceValues.cb (record { root_layer = some root }))

  unfoldable pub extract_evidence_values : Evidence → Result EvidenceValues
  unfolding values_by_kind
  extract_evidence_values evidence = do
    root_evidence ← context "no root layer evidence" evidence.root_layer
    root ← extract_root_values root_evidence
    keys ← context "no application keys" evidence.application_keys
    final_layer_claims ←
        with_context "couldn't parse final DICE layer certificate"
          (claims_set_from_serialized_cert keys.encryption_public_key_certificate)
    values_by_kind root evidence.layers (extract_container_layer_data final_layer_claims)
        (extract_application_layer_data final_layer_claims)

  unfoldable pub extract_evidence : Evidence → Result ExtractedEvidence
  extract_evidence evidence = do
    values ← with_context "couldn't extract evidence values" (extract_evidence_values evidence)
    keys ← context "no application keys" evidence.application_keys
    key_values ←
        with_context "couldn't extract application key values" (extract_application_key_values keys)
    ok (record {
      evidence_values = some values;
      encryption_public_key = key_values.encryption_public_key;
      signing_public_key = key_values.signing_public_key;
    })
