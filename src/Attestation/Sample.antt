-- ===== src/Attestation/Sample.antt =====
-- Test data: a restricted kernel chain of an AMD platform, with its application endorsed.
use not_an_oak_fork.Base.{ℕ, false, Option, none, some, List, [], ◌∷◌, codes, replicate}
use not_an_oak_fork.Attestation.Values.{
  empty, BinaryReference, BinaryReferenceValue, KernelBinaryReference, TextReference,
  TransparentReleaseEndorsement, EndorsementReferenceValue, Endorsements, ReferenceValues,
}
use not_an_oak_fork.Attestation.Digest.{RawDigest, empty_raw}
use not_an_oak_fork.Attestation.Evidence.{
  amd_sev_snp, RootLayerEvidence, Evidence, ExtractedEvidence, EvidenceValues, AmdAttestationReport,
  KernelLayerData, sev_snp,
}
use not_an_oak_fork.Attestation.Expectations.{
  Expected, ExpectedDigests, ExpectedText, TextExpectedValue, AmdSevExpectedValues,
  KernelLayerExpectedValues, ExpectedValues,
}

abbrev pub root : RootLayerEvidence
root = record { platform = amd_sev_snp; remote_attestation_report = []; eca_public_key = 1 ∷ [] }

abbrev pub evidence : Evidence
evidence = record {
  root_layer = some root;
  layers = record { eca_certificate = 1 ∷ [] } ∷ [];
  application_keys = some (record {
    encryption_public_key_certificate = 2 ∷ [];
    signing_public_key_certificate = 3 ∷ [];
  });
}

abbrev pub endorsement : TransparentReleaseEndorsement
endorsement = record {
  endorsement = 9 ∷ [];
  subject = 9 ∷ [];
  endorsement_signature = 45 ∷ [];
  rekor_log_entry = 8 ∷ [];
}

abbrev pub keys : EndorsementReferenceValue
keys = record { endorser_public_key = 77 ∷ []; rekor_public_key = 88 ∷ [] }

abbrev pub endorsements : Endorsements
endorsements = Endorsements.oak_restricted_kernel (record {
  root_layer = some (record { tee_certificate = []; stage0 = none });
  kernel_layer = none;
  application_layer = some (record { binary = some endorsement; configuration = none });
})

abbrev pub digest : ℕ → RawDigest
digest d = record empty_raw { sha2_256 = d ∷ [] }

abbrev pub listed : ℕ → Option BinaryReferenceValue
listed d = some (record { type = some (BinaryReference.digests (digest 1 ∷ digest d ∷ [])) })

abbrev pub skipped : Option BinaryReferenceValue
skipped = some (record { type = some (BinaryReference.skip empty) })

abbrev pub reference : ReferenceValues
reference = ReferenceValues.oak_restricted_kernel (record {
  root_layer = some (record {
    amd_sev = some (record {
      min_tcb_version = some (record { boot_loader = 3; tee = 0; snp = 7; microcode = 100 });
      allow_debug = false;
      stage0 = some (record {
        type = some (BinaryReference.digests (record empty_raw { sha2_384 = 21 ∷ [] } ∷ []));
      });
    });
    intel_tdx = none;
    insecure = none;
  });
  kernel_layer = some (record {
    kernel = some (record {
      type = some (
          KernelBinaryReference.digests
            (record { image = some (digest 11 ∷ []); setup_data = some (digest 13 ∷ []) }));
    });
    kernel_cmd_line_text = some (record {
      type = some (TextReference.string_literals (codes "debug" ∷ codes "quiet" ∷ []));
    });
    init_ram_fs = listed 14;
    memory_map = skipped;
    acpi = listed 16;
  });
  application_layer = some (record {
    binary = some (record { type = some (BinaryReference.endorsement keys) });
    configuration = skipped;
  });
})

-- what is extracted
abbrev pub amd_report : AmdAttestationReport
amd_report = record {
  report_data = 1 ∷ 0 ∷ 0 ∷ [];
  current_tcb = some (record { boot_loader = 3; tee = 0; snp = 8; microcode = 115 });
  reported_tcb = some (record { boot_loader = 3; tee = 0; snp = 8; microcode = 115 });
  debug = false;
  initial_measurement = 21 ∷ [];
  hardware_id = replicate 64 3;
  vmpl = 0;
}

abbrev pub kernel_data : KernelLayerData
kernel_data = record {
  kernel_image = some (digest 11);
  kernel_setup_data = some (digest 13);
  kernel_cmd_line = some (digest 12);
  kernel_raw_cmd_line = some (codes "quiet");
  init_ram_fs = some (digest 14);
  memory_map = some (digest 15);
  acpi = some (digest 16);
}

abbrev pub extracted : ExtractedEvidence
extracted = record {
  evidence_values = some (
      EvidenceValues.oak_restricted_kernel (record {
        root_layer = some (record { report = some (sev_snp amd_report) });
        kernel_layer = some kernel_data;
        application_layer = some (record { binary = some (digest 5); config = some (digest 6) });
      }));
  encryption_public_key = 100 ∷ [];
  signing_public_key = replicate 64 4;
}

-- what is expected
abbrev pub allowed_list : List RawDigest → Option ExpectedDigests
allowed_list ds = some (record { type = some (Expected.digests ds) })

abbrev pub amd_expected : AmdSevExpectedValues
amd_expected = record {
  stage0_expected = allowed_list (record empty_raw { sha2_384 = 21 ∷ [] } ∷ []);
  min_tcb_version = some (record { boot_loader = 3; tee = 0; snp = 7; microcode = 100 });
  allow_debug = false;
}

abbrev pub cmd_line_expected : Option TextExpectedValue
cmd_line_expected =
    some
      (record { type = some (ExpectedText.string_literals (codes "debug" ∷ codes "quiet" ∷ [])) })

abbrev pub kernel_expected : KernelLayerExpectedValues
kernel_expected = record {
  kernel = some (record {
    image = allowed_list (digest 11 ∷ []);
    setup_data = allowed_list (digest 13 ∷ []);
  });
  kernel_cmd_line_text = cmd_line_expected;
  init_ram_fs = allowed_list (digest 1 ∷ digest 14 ∷ []);
  memory_map = some (record { type = some (Expected.skipped empty) });
  acpi = allowed_list (digest 1 ∷ digest 16 ∷ []);
}

abbrev pub expected : ExpectedValues
expected = ExpectedValues.oak_restricted_kernel (record {
  root_layer = some (record { amd_sev = some amd_expected; intel_tdx = none; insecure = none });
  kernel_layer = some kernel_expected;
  application_layer = some (record {
    binary = allowed_list (digest 5 ∷ []);
    configuration = some (record { type = some (Expected.skipped empty) });
  });
})
