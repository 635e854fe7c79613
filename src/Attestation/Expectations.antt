-- ===== src/Attestation/Expectations.antt =====
-- proto/attestation/expected_value.proto: what the verifier computes from endorsements and
-- reference values and compares the evidence with.
use not_an_oak_fork.Base.{ℕ, Bool, Option, List}
use not_an_oak_fork.Attestation.Digest.{RawDigest}
use not_an_oak_fork.Attestation.Values.{Empty, TcbVersion}

pub data Expected : Type 0 where
  skipped : Empty → Expected
  digests : List RawDigest → Expected

pub record ExpectedDigests : Type 0 where
  pub type : Option Expected

pub record KernelExpectedValues : Type 0 where
  pub image : Option ExpectedDigests
  pub setup_data : Option ExpectedDigests

pub record AmdSevExpectedValues : Type 0 where
  pub stage0_expected : Option ExpectedDigests
  pub min_tcb_version : Option TcbVersion
  pub allow_debug : Bool

pub data ExpectedText : Type 0 where
  skipped : Empty → ExpectedText
  regex : List ℕ → ExpectedText
  string_literals : List (List ℕ) → ExpectedText

pub record TextExpectedValue : Type 0 where
  pub type : Option ExpectedText

pub record RootLayerExpectedValues : Type 0 where
  pub amd_sev : Option AmdSevExpectedValues
  pub intel_tdx : Option Empty
  pub insecure : Option Empty

pub record KernelLayerExpectedValues : Type 0 where
  pub kernel : Option KernelExpectedValues
  pub kernel_cmd_line_text : Option TextExpectedValue
  pub init_ram_fs : Option ExpectedDigests
  pub memory_map : Option ExpectedDigests
  pub acpi : Option ExpectedDigests

pub record SystemLayerExpectedValues : Type 0 where
  pub system_image : Option ExpectedDigests

pub record ContainerLayerExpectedValues : Type 0 where
  pub bundle : Option ExpectedDigests
  pub config : Option ExpectedDigests

pub record ApplicationLayerExpectedValues : Type 0 where
  pub binary : Option ExpectedDigests
  pub configuration : Option ExpectedDigests

pub record OakRestrictedKernelExpectedValues : Type 0 where
  pub root_layer : Option RootLayerExpectedValues
  pub kernel_layer : Option KernelLayerExpectedValues
  pub application_layer : Option ApplicationLayerExpectedValues

pub record OakContainersExpectedValues : Type 0 where
  pub root_layer : Option RootLayerExpectedValues
  pub kernel_layer : Option KernelLayerExpectedValues
  pub system_layer : Option SystemLayerExpectedValues
  pub container_layer : Option ContainerLayerExpectedValues

pub record CbExpectedValues : Type 0 where
  pub root_layer : Option RootLayerExpectedValues

pub data ExpectedValues : Type 0 where
  oak_restricted_kernel : OakRestrictedKernelExpectedValues → ExpectedValues
  oak_containers : OakContainersExpectedValues → ExpectedValues
  cb : CbExpectedValues → ExpectedValues
