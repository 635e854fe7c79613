-- ===== src/Attestation/Values.antt =====
-- The messages of proto/attestation: endorsements, reference values and expected values. A message
-- field is an `Option`, a `oneof` an `Option` of a data type, a text the list of its UTF-8 bytes.
-- Fields marked deprecated that no code reads are left out.
use not_an_oak_fork.Base.{ℕ, Bool, Option, List}
use not_an_oak_fork.Attestation.Digest.{RawDigest, HexDigest}

pub record TcbVersion : Type 0 where
  pub boot_loader : ℕ
  pub tee : ℕ
  pub snp : ℕ
  pub microcode : ℕ

-- `VerificationSkipped`, `SkipVerification` and the other messages with no field
pub record Empty : Type 0 where

abbrev pub empty : Empty
empty = record {}

pub record EndorsementReferenceValue : Type 0 where
  pub endorser_public_key : List ℕ
  pub rekor_public_key : List ℕ

pub data BinaryReference : Type 0 where
  skip : Empty → BinaryReference
  endorsement : EndorsementReferenceValue → BinaryReference
  digests : List RawDigest → BinaryReference

pub record BinaryReferenceValue : Type 0 where
  pub type : Option BinaryReference

pub record KernelDigests : Type 0 where
  pub image : Option (List RawDigest)
  pub setup_data : Option (List RawDigest)

pub data KernelBinaryReference : Type 0 where
  skip : Empty → KernelBinaryReference
  endorsement : EndorsementReferenceValue → KernelBinaryReference
  digests : KernelDigests → KernelBinaryReference

pub record KernelBinaryReferenceValue : Type 0 where
  pub type : Option KernelBinaryReference

pub data TextReference : Type 0 where
  skip : Empty → TextReference
  endorsement : EndorsementReferenceValue → TextReference
  regex : List ℕ → TextReference
  string_literals : List (List ℕ) → TextReference

pub record TextReferenceValue : Type 0 where
  pub type : Option TextReference

pub record AmdSevReferenceValues : Type 0 where
  pub min_tcb_version : Option TcbVersion
  pub allow_debug : Bool
  pub stage0 : Option BinaryReferenceValue

pub record RootLayerReferenceValues : Type 0 where
  pub amd_sev : Option AmdSevReferenceValues
  pub intel_tdx : Option Empty
  pub insecure : Option Empty

pub record KernelLayerReferenceValues : Type 0 where
  pub kernel : Option KernelBinaryReferenceValue
  pub kernel_cmd_line_text : Option TextReferenceValue
  pub init_ram_fs : Option BinaryReferenceValue
  pub memory_map : Option BinaryReferenceValue
  pub acpi : Option BinaryReferenceValue

pub record SystemLayerReferenceValues : Type 0 where
  pub system_image : Option BinaryReferenceValue

pub record ApplicationLayerReferenceValues : Type 0 where
  pub binary : Option BinaryReferenceValue
  pub configuration : Option BinaryReferenceValue

pub record ContainerLayerReferenceValues : Type 0 where
  pub binary : Option BinaryReferenceValue
  pub configuration : Option BinaryReferenceValue

pub record OakRestrictedKernelReferenceValues : Type 0 where
  pub root_layer : Option RootLayerReferenceValues
  pub kernel_layer : Option KernelLayerReferenceValues
  pub application_layer : Option ApplicationLayerReferenceValues

pub record OakContainersReferenceValues : Type 0 where
  pub root_layer : Option RootLayerReferenceValues
  pub kernel_layer : Option KernelLayerReferenceValues
  pub system_layer : Option SystemLayerReferenceValues
  pub container_layer : Option ContainerLayerReferenceValues

-- Of a CB workload the verifier reads the root layer alone.
pub record CbReferenceValues : Type 0 where
  pub root_layer : Option RootLayerReferenceValues

pub data ReferenceValues : Type 0 where
  oak_restricted_kernel : OakRestrictedKernelReferenceValues → ReferenceValues
  oak_containers : OakContainersReferenceValues → ReferenceValues
  cb : CbReferenceValues → ReferenceValues

pub record TransparentReleaseEndorsement : Type 0 where
  pub endorsement : List ℕ
  pub subject : List ℕ
  pub endorsement_signature : List ℕ
  pub rekor_log_entry : List ℕ

pub record RootLayerEndorsements : Type 0 where
  pub tee_certificate : List ℕ
  pub stage0 : Option TransparentReleaseEndorsement

pub record KernelLayerEndorsements : Type 0 where
  pub kernel : Option TransparentReleaseEndorsement
  pub kernel_cmd_line : Option TransparentReleaseEndorsement
  pub init_ram_fs : Option TransparentReleaseEndorsement
  pub memory_map : Option TransparentReleaseEndorsement
  pub acpi : Option TransparentReleaseEndorsement

pub record SystemLayerEndorsements : Type 0 where
  pub system_image : Option TransparentReleaseEndorsement

pub record ApplicationLayerEndorsements : Type 0 where
  pub binary : Option TransparentReleaseEndorsement
  pub configuration : Option TransparentReleaseEndorsement

pub record ContainerLayerEndorsements : Type 0 where
  pub binary : Option TransparentReleaseEndorsement
  pub configuration : Option TransparentReleaseEndorsement

pub record OakRestrictedKernelEndorsements : Type 0 where
  pub root_layer : Option RootLayerEndorsements
  pub kernel_layer : Option KernelLayerEndorsements
  pub application_layer : Option ApplicationLayerEndorsements

pub record OakContainersEndorsements : Type 0 where
  pub root_layer : Option RootLayerEndorsements
  pub kernel_layer : Option KernelLayerEndorsements
  pub system_layer : Option SystemLayerEndorsements
  pub container_layer : Option ContainerLayerEndorsements

pub record CbEndorsements : Type 0 where
  pub root_layer : Option RootLayerEndorsements

pub data Endorsements : Type 0 where
  oak_restricted_kernel : OakRestrictedKernelEndorsements → Endorsements
  oak_containers : OakContainersEndorsements → Endorsements
  cb : CbEndorsements → Endorsements

pub record FirmwareAttachment : Type 0 where
  pub configs : List (ℕ × HexDigest)

pub record KernelAttachment : Type 0 where
  pub image : Option HexDigest
  pub setup_data : Option HexDigest
