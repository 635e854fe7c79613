-- ===== src/Attestation/Evidence.antt =====
-- proto/attestation/evidence.proto and verification.proto: the evidence, and the values that are
-- extracted from it.
use not_an_oak_fork.Base.{ℕ, Bool, Option, List}
use not_an_oak_fork.Attestation.Digest.{RawDigest}
use not_an_oak_fork.Attestation.Values.{TcbVersion}

pub data TeePlatform : Type 0 where
  unspecified amd_sev_snp intel_tdx no_tee : TeePlatform

pub record RootLayerEvidence : Type 0 where
  pub platform : TeePlatform
  pub remote_attestation_report : List ℕ
  pub eca_public_key : List ℕ

pub record LayerEvidence : Type 0 where
  pub eca_certificate : List ℕ

pub record ApplicationKeys : Type 0 where
  pub encryption_public_key_certificate : List ℕ
  pub signing_public_key_certificate : List ℕ

pub record Evidence : Type 0 where
  pub root_layer : Option RootLayerEvidence
  pub layers : List LayerEvidence
  pub application_keys : Option ApplicationKeys

pub record AmdAttestationReport : Type 0 where
  pub report_data : List ℕ
  pub current_tcb : Option TcbVersion
  pub reported_tcb : Option TcbVersion
  pub debug : Bool
  pub initial_measurement : List ℕ
  pub hardware_id : List ℕ
  pub vmpl : ℕ

-- of `IntelTdxAttestationReport` and `FakeAttestationReport`, the only field
pub data Report : Type 0 where
  sev_snp : AmdAttestationReport → Report
  tdx : List ℕ → Report
  fake : List ℕ → Report

pub record RootLayerData : Type 0 where
  pub report : Option Report

pub record KernelLayerData : Type 0 where
  pub kernel_image : Option RawDigest
  pub kernel_setup_data : Option RawDigest
  pub kernel_cmd_line : Option RawDigest
  pub kernel_raw_cmd_line : Option (List ℕ)
  pub init_ram_fs : Option RawDigest
  pub memory_map : Option RawDigest
  pub acpi : Option RawDigest

pub record ApplicationLayerData : Type 0 where
  pub binary : Option RawDigest
  pub config : Option RawDigest

pub record SystemLayerData : Type 0 where
  pub system_image : Option RawDigest

pub record ContainerLayerData : Type 0 where
  pub bundle : Option RawDigest
  pub config : Option RawDigest

pub record OakRestrictedKernelData : Type 0 where
  pub root_layer : Option RootLayerData
  pub kernel_layer : Option KernelLayerData
  pub application_layer : Option ApplicationLayerData

pub record OakContainersData : Type 0 where
  pub root_layer : Option RootLayerData
  pub kernel_layer : Option KernelLayerData
  pub system_layer : Option SystemLayerData
  pub container_layer : Option ContainerLayerData

pub record CbData : Type 0 where
  pub root_layer : Option RootLayerData

pub data EvidenceValues : Type 0 where
  oak_restricted_kernel : OakRestrictedKernelData → EvidenceValues
  oak_containers : OakContainersData → EvidenceValues
  cb : CbData → EvidenceValues

pub record ExtractedEvidence : Type 0 where
  pub evidence_values : Option EvidenceValues
  pub encryption_public_key : List ℕ
  pub signing_public_key : List ℕ
