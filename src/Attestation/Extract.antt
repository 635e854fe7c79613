-- ===== src/Attestation/Extract.antt =====
-- The functions of oak_attestation_verification/src/verifier.rs that read measurements and keys
-- off the evidence.
use not_an_oak_fork.Base.{
  ℕ, ℤ, negsuc, Option, none, some, List, Result, ok, bail, context, unwrap, with_context, ensure,
  ◌>>=◌, ◌>>◌, if◌then◌else◌,
}
use not_an_oak_fork.Attestation.Digest.{RawDigest, empty_raw}
use not_an_oak_fork.Attestation.Evidence.{
  KernelLayerData, ApplicationLayerData, SystemLayerData, ContainerLayerData,
}
use not_an_oak_fork.Attestation.Externals.{Value, Entries, no_entries, entry, ClaimsSet}
use not_an_oak_fork.Attestation.Cert.{is_integer, as_bytes, find_claim_map}

abbrev kernel_layer_id : ℤ
kernel_layer_id = negsuc 4670554

abbrev enclave_application_layer_id : ℤ
enclave_application_layer_id = negsuc 4670555

abbrev system_image_layer_id : ℤ
system_image_layer_id = negsuc 4670556

abbrev container_image_layer_id : ℤ
container_image_layer_id = negsuc 4670558

abbrev kernel_measurement_id : ℤ
kernel_measurement_id = negsuc 4670560

abbrev kernel_commandline_measurement_id : ℤ
kernel_commandline_measurement_id = negsuc 4670561

abbrev setup_data_measurement_id : ℤ
setup_data_measurement_id = negsuc 4670562

abbrev initrd_measurement_id : ℤ
initrd_measurement_id = negsuc 4670563

abbrev memory_map_measurement_id : ℤ
memory_map_measurement_id = negsuc 4670564

abbrev acpi_measurement_id : ℤ
acpi_measurement_id = negsuc 4670565

abbrev layer_2_code_measurement_id : ℤ
layer_2_code_measurement_id = negsuc 4670566

abbrev layer_3_code_measurement_id : ℤ
layer_3_code_measurement_id = negsuc 4670568

abbrev final_layer_config_measurement_id : ℤ
final_layer_config_measurement_id = negsuc 4670569

abbrev sha2_256_id : ℤ
sha2_256_id = negsuc 4670571

abbrev kernel_commandline_id : ℤ
kernel_commandline_id = negsuc 4670572

unfoldable pub extract_layer_data : ClaimsSet → ℤ → Result Entries
extract_layer_data claims layer_id =
    context "couldn't find layer values" (find_claim_map layer_id claims.rest)

unfoldable pub find_value : ℤ → Entries → Option Value
find_value id no_entries = none
find_value id (entry key value rest) = if is_integer id key then some value else find_value id rest

unfoldable pub extract_value : Entries → ℤ → Result Value
unfolding find_value
extract_value values id = context "couldn't find measurement" (find_value id values)

-- the loop of `value_to_raw_digest`: only SHA2-256 byte strings are taken, the last one wins
unfoldable pub collect_digests : RawDigest → Entries → Result RawDigest
collect_digests d no_entries = ok d
collect_digests d (entry key value rest) = do
  bytes ← context "digest is not a byte array" (as_bytes value)
  ensure (is_integer sha2_256_id key) "digest is not a byte array"
  collect_digests (record d { sha2_256 = bytes }) rest

unfoldable pub value_to_raw_digest : Value → Result RawDigest
unfolding collect_digests
value_to_raw_digest (Value.map m) = collect_digests empty_raw m
value_to_raw_digest _ = bail "value is not a map of digests"

-- `value_to_raw_digest(extract_value(values, id)?)?`
unfoldable pub measurement : Entries → ℤ → Result RawDigest
measurement values id = extract_value values id >>= value_to_raw_digest

abbrev as_text : Value → Option (List ℕ)
as_text (Value.text t) = some t
as_text _ = none

-- An absent command line is no error; one that is not a text is a panic.
unfoldable pub command_line : Option Value → Result (Option (List ℕ))
command_line none = ok none
command_line (some v) = unwrap (as_text v) >>= λ t. ok (some t)

unfoldable pub extract_kernel_values : ClaimsSet → Result KernelLayerData
unfolding measurement command_line
extract_kernel_values claims = do
  values ← with_context "kernel layer ID not found" (extract_layer_data claims kernel_layer_id)
  kernel_image ← measurement values kernel_measurement_id
  kernel_setup_data ← measurement values setup_data_measurement_id
  kernel_cmd_line ← measurement values kernel_commandline_measurement_id
  kernel_raw_cmd_line ← command_line (find_value kernel_commandline_id values)
  init_ram_fs ← measurement values initrd_measurement_id
  memory_map ← measurement values memory_map_measurement_id
  acpi ← measurement values acpi_measurement_id
  ok (record {
    kernel_image = some kernel_image;
    kernel_setup_data = some kernel_setup_data;
    kernel_cmd_line = some kernel_cmd_line;
    kernel_raw_cmd_line = kernel_raw_cmd_line;
    init_ram_fs = some init_ram_fs;
    memory_map = some memory_map;
    acpi = some acpi;
  })

unfoldable pub extract_system_layer_data : ClaimsSet → Result SystemLayerData
extract_system_layer_data claims = do
  values ←
      with_context "system layer ID not found" (extract_layer_data claims system_image_layer_id)
  system_image ← measurement values layer_2_code_measurement_id
  ok (record { system_image = some system_image })

unfoldable pub extract_container_layer_data : ClaimsSet → Result ContainerLayerData
extract_container_layer_data claims = do
  values ←
      with_context "system layer ID not found" (extract_layer_data claims container_image_layer_id)
  bundle ← measurement values layer_3_code_measurement_id
  config ← measurement values final_layer_config_measurement_id
  ok (record { bundle = some bundle; config = some config })

unfoldable pub extract_application_layer_data : ClaimsSet → Result ApplicationLayerData
extract_application_layer_data claims = do
  values ←
      with_context "system layer ID not found"
        (extract_layer_data claims enclave_application_layer_id)
  binary ← measurement values layer_2_code_measurement_id
  config ← measurement values final_layer_config_measurement_id
  ok (record { binary = some binary; config = some config })
