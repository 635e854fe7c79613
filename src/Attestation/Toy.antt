-- ===== src/Attestation/Toy.antt =====
-- Functions for the packages that the verifier calls, simple enough to compute with: encodings
-- leave their text alone, and a signature is the first byte of the key that made it. With them the
-- tests run the verifier on whole inputs.
use not_an_oak_fork.Base.{
  ℕ, ℤ, pos, negsuc, refl, true, none, some, List, [], ◌∷◌, ◌++◌, ◌==◌, if◌then◌else◌, bytes_eq,
  codes, take, replicate, ltb,
}
use not_an_oak_fork.Attestation.Report.{TcbVersion, AttestationReport}
use not_an_oak_fork.Attestation.Externals.{
  Externals, Value, Entries, no_entries, entry, private_use, ClaimsSet, CoseSign1, CoseKey,
  EndorsementStatement, LogEntry, Body,
}
use not_an_oak_fork.Attestation.Util.{pem_header, pem_footer}
use not_an_oak_fork.Attestation.Claims.{statement_v1, predicate_v2, endorsement_v2}
use not_an_oak_fork.Attestation.CompareLaws.{IsHex}

-- keys: a byte below 100 stands for a P-256 key, any other for an HPKE key
abbrev cose_key : ℕ → CoseKey
cose_key k =
    if ltb k 100
    then record {
      kty = pos 2;
      alg = some (negsuc 6);
      key_ops = pos 2 ∷ [];
      params =
          (negsuc 0, Value.integer (pos 1))
          ∷ (negsuc 1, Value.bytes (replicate 32 k))
          ∷ (negsuc 2, Value.bytes (replicate 32 k))
          ∷ [];
    }
    else record {
      kty = pos 1;
      alg = some (negsuc 30);
      key_ops = pos 5 ∷ [];
      params = (negsuc 0, Value.integer (pos 4)) ∷ (negsuc 1, Value.bytes (k ∷ [])) ∷ [];
    }

abbrev head_or_zero : List ℕ → ℕ
head_or_zero [] = 0
head_or_zero (x ∷ xs) = x

-- a measurement of one SHA2-256 digest
abbrev sha2_256_of : ℕ → Value
sha2_256_of d = Value.map (entry (Value.integer (negsuc 4670571)) (Value.bytes (d ∷ [])) no_entries)

abbrev measured : ℤ → ℕ → Entries → Entries
measured id d rest = entry (Value.integer id) (sha2_256_of d) rest

abbrev kernel_entries : Entries
kernel_entries = measured (negsuc 4670560) 11 (
    measured (negsuc 4670561) 12 (
      measured (negsuc 4670562) 13 (
        measured (negsuc 4670563) 14 (
          measured (negsuc 4670564) 15 (
            measured (negsuc 4670565) 16
              (entry (Value.integer (negsuc 4670572)) (Value.text (codes "quiet")) no_entries))))))

abbrev application_entries : Entries
application_entries = measured (negsuc 4670566) 5 (measured (negsuc 4670569) 6 no_entries)

-- the claims of the kernel's certificate (1), of the encryption key's (2), of the signing key's
abbrev claims : ℕ → ClaimsSet
claims tag =
    if tag == 1
    then record {
      rest =
          (private_use (negsuc 4670551), Value.bytes (2 ∷ []))
          ∷ (private_use (negsuc 4670554), Value.map kernel_entries)
          ∷ [];
    }
    else if tag == 2
    then record {
      rest =
          (private_use (negsuc 4670551), Value.bytes (100 ∷ []))
          ∷ (private_use (negsuc 4670555), Value.map application_entries)
          ∷ [];
    }
    else record { rest = (private_use (negsuc 4670551), Value.bytes (4 ∷ [])) ∷ [] }

-- certificate 1 is signed by key 1, the others by key 2
abbrev certificate : ℕ → CoseSign1
certificate tag = record {
  payload = some (tag ∷ []);
  signature = if tag == 1 then 1 ∷ [] else 2 ∷ [];
  signed = tag ∷ [];
}

abbrev pub statement : EndorsementStatement
statement = record {
  statement_type = statement_v1;
  predicate_type = predicate_v2;
  subject = record { name = codes "app"; digest = (codes "sha256", 5 ∷ []) ∷ [] } ∷ [];
  predicate = record {
    claim_type = endorsement_v2;
    usage = codes "firmware";
    issued_on = pos 1_000_000;
    validity = some (record { not_before = pos 2_000_000; not_after = pos 9_000_000 });
  };
}

abbrev pub log_entry : LogEntry
log_entry = record {
  body = codes "b";
  integrated_time = 7;
  log_id = codes "i";
  log_index = 3;
  signed_entry_timestamp = some (45 ∷ []);
}

abbrev pub body : Body
body = record {
  hash_algorithm = codes "sha256";
  hash_value = 9 ∷ [];
  signature_content = 45 ∷ [];
  signature_format = codes "x509";
  public_key_content = pem_header ++ (77 ∷ pem_footer);
}

abbrev tcb : TcbVersion
tcb = record { boot_loader = 3; tee = 0; reserved = 0 ∷ 0 ∷ 0 ∷ 0 ∷ []; snp = 8; microcode = 115 }

-- the root layer's key is 1
abbrev pub report : AttestationReport
report = record {
  report_body = record {
    policy = record { abi_minor = 0; abi_major = 0; flags = 7; reserved = 0 };
    vmpl = 0;
    signature_algo = 1;
    current_tcb = tcb;
    platform_info = 1;
    author_key_en = 0;
    report_data = 1 ∷ 0 ∷ 0 ∷ [];
    measurement = 21 ∷ [];
    reported_tcb = tcb;
    reserved_0 = 0 ∷ [];
    chip_id = replicate 64 3;
    committed_tcb = tcb;
    reserved_1 = 0;
    reserved_2 = 0;
    reserved_3 = 0 ∷ [];
  };
  signature = record { r = 1 ∷ []; s = 1 ∷ []; reserved = 0 ∷ [] };
}

abbrev tcb_extensions : List (List ℕ × List ℕ)
tcb_extensions =
    (codes "1.3.6.1.4.1.3704.1.3.1", 2 ∷ 1 ∷ 3 ∷ [])
    ∷ (codes "1.3.6.1.4.1.3704.1.3.3", 2 ∷ 1 ∷ 8 ∷ [])
    ∷ (codes "1.3.6.1.4.1.3704.1.3.8", 2 ∷ 1 ∷ 115 ∷ [])
    ∷ (codes "1.3.6.1.4.1.3704.1.4", replicate 64 3)
    ∷ []

abbrev pub toy : Externals
toy = record {
  hex_encode = λ b. b;
  hex_decode = λ b. some b;
  base64_encode = λ b. b;
  base64_decode = λ b. some b;
  sha2_256 = λ b. b;
  sha2_384 = λ b. b;
  sha2_512 = λ b. b;
  VerifyingKey = List ℕ;
  Signature = List ℕ;
  key_from_pem = λ b. some b;
  key_from_point = λ x y. some (x ++ y);
  key_to_sec1 = λ k. k;
  keys_equal = bytes_eq;
  signature_from_der = λ b. some b;
  signature_from_slice = λ b. some b;
  verifies = λ key message signature. bytes_eq (take 1 key) signature;
  parse_statement = λ b. some statement;
  parse_log_entries = λ b. some (log_entry ∷ []);
  parse_body = λ b. some body;
  decode_firmware = λ b. some (record { configs = [] });
  decode_kernel = λ b. none;
  compile_regex = λ r. some (bytes_eq r);
  cose_sign1_from_slice = λ b. some (certificate (head_or_zero b));
  claims_from_slice = λ b. some (claims (head_or_zero b));
  cose_key_from_slice = λ b. some (cose_key (head_or_zero b));
  Certificate = Unit {0};
  cert_from_der = λ b. some tt;
  ask_milan = some tt;
  is_v3 = λ c. true;
  uses_rsa_pss = λ c. true;
  extensions = λ c. some tcb_extensions;
  RsaKey = Unit {0};
  rsa_key = λ c. some tt;
  tbs_der = λ c. some [];
  RsaSignature = Unit {0};
  rsa_signature = λ c. some tt;
  rsa_verifies = λ k m s. true;
  P384Key = Unit {0};
  p384_key = λ c. some tt;
  P384Signature = Unit {0};
  p384_signature = λ r s. some tt;
  p384_verifies = λ k m s. true;
  report_from_bytes = λ b. some report;
  report_bytes = λ d. [];
}

pub toy-IsHex : IsHex toy
toy-IsHex = record { injective = λ a b e. e; encode-nil = refl }
