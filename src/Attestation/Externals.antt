-- ===== src/Attestation/Externals.antt =====
-- What oak_attestation_verification calls in other packages: hashes, encodings, signatures and
-- the parsers of JSON, CBOR, X.509 and protocol buffers. A parser yields a value or fails. The
-- verifier is a function of these; no law of theirs is assumed here.
use not_an_oak_fork.Base.{ℕ, ℤ, Bool, Option, List}
use not_an_oak_fork.Attestation.Report.{AttestationReport, AttestationReportData}
use not_an_oak_fork.Attestation.Values.{FirmwareAttachment, KernelAttachment}

-- `coset::cbor::Value`; the kinds that the verifier tells apart, and one for all others.
mutual
  pub data Value : Type 0 where
    integer : ℤ → Value
    bytes : List ℕ → Value
    text : List ℕ → Value
    map : Entries → Value
    other_value : Value

  pub data Entries : Type 0 where
    no_entries : Entries
    entry : Value → Value → Entries → Entries

-- a claim's label: a private one, or any other
pub data Label : Type 0 where
  private_use : ℤ → Label
  other_label : Label

-- `ClaimsSet::rest`
pub record ClaimsSet : Type 0 where
  pub rest : List (Label × Value)

-- A COSE signature: `signed` is the string of bytes that the signature is over, the payload
-- included.
pub record CoseSign1 : Type 0 where
  pub payload : Option (List ℕ)
  pub signature : List ℕ
  pub signed : List ℕ

-- The enumerations of the IANA registry are their numbers; a parameter label is an integer.
pub record CoseKey : Type 0 where
  pub kty : ℤ
  pub alg : Option ℤ
  pub key_ops : List ℤ
  pub params : List (ℤ × Value)

-- in-toto statements (oak_attestation_verification/src/claims.rs), parsed by serde; times are
-- nanoseconds since the epoch.
pub record ClaimValidity : Type 0 where
  pub not_before : ℤ
  pub not_after : ℤ

pub record ClaimPredicate : Type 0 where
  pub claim_type : List ℕ
  pub usage : List ℕ
  pub issued_on : ℤ
  pub validity : Option ClaimValidity

pub record Subject : Type 0 where
  pub name : List ℕ
  pub digest : List (List ℕ × List ℕ)

pub record EndorsementStatement : Type 0 where
  pub statement_type : List ℕ
  pub predicate_type : List ℕ
  pub subject : List Subject
  pub predicate : ClaimPredicate

-- Rekor log entries (oak_attestation_verification/src/rekor.rs)
pub record LogEntry : Type 0 where
  pub body : List ℕ
  pub integrated_time : ℕ
  pub log_id : List ℕ
  pub log_index : ℕ
  pub signed_entry_timestamp : Option (List ℕ)

pub record Body : Type 0 where
  pub hash_algorithm : List ℕ
  pub hash_value : List ℕ
  pub signature_content : List ℕ
  pub signature_format : List ℕ
  pub public_key_content : List ℕ

pub record Externals : Type 1 where
  -- hex and base64
  pub hex_encode : List ℕ → List ℕ
  pub hex_decode : List ℕ → Option (List ℕ)
  pub base64_encode : List ℕ → List ℕ
  pub base64_decode : List ℕ → Option (List ℕ)
  -- sha2
  pub sha2_256 : List ℕ → List ℕ
  pub sha2_384 : List ℕ → List ℕ
  pub sha2_512 : List ℕ → List ℕ
  -- p256
  pub VerifyingKey : Type 0
  pub Signature : Type 0
  pub key_from_pem : List ℕ → Option VerifyingKey
  pub key_from_point : List ℕ → List ℕ → Option VerifyingKey
  pub key_to_sec1 : VerifyingKey → List ℕ
  pub keys_equal : VerifyingKey → VerifyingKey → Bool
  pub signature_from_der : List ℕ → Option Signature
  pub signature_from_slice : List ℕ → Option Signature
  pub verifies : VerifyingKey → List ℕ → Signature → Bool
  -- serde_json
  pub parse_statement : List ℕ → Option EndorsementStatement
  pub parse_log_entries : List ℕ → Option (List LogEntry)
  pub parse_body : List ℕ → Option Body
  -- prost
  pub decode_firmware : List ℕ → Option FirmwareAttachment
  pub decode_kernel : List ℕ → Option KernelAttachment
  -- regex
  pub compile_regex : List ℕ → Option (List ℕ → Bool)
  -- coset
  pub cose_sign1_from_slice : List ℕ → Option CoseSign1
  pub claims_from_slice : List ℕ → Option ClaimsSet
  pub cose_key_from_slice : List ℕ → Option CoseKey
  -- x509_cert, rsa, p384 and zerocopy
  pub Certificate : Type 0
  pub cert_from_der : List ℕ → Option Certificate
  pub ask_milan : Option Certificate
  pub is_v3 : Certificate → Bool
  pub uses_rsa_pss : Certificate → Bool
  pub extensions : Certificate → Option (List (List ℕ × List ℕ))
  pub RsaKey : Type 0
  pub rsa_key : Certificate → Option RsaKey
  pub tbs_der : Certificate → Option (List ℕ)
  pub RsaSignature : Type 0
  pub rsa_signature : Certificate → Option RsaSignature
  pub rsa_verifies : RsaKey → List ℕ → RsaSignature → Bool
  pub P384Key : Type 0
  pub p384_key : Certificate → Option P384Key
  pub P384Signature : Type 0
  pub p384_signature : List ℕ → List ℕ → Option P384Signature
  pub p384_verifies : P384Key → List ℕ → P384Signature → Bool
  pub report_from_bytes : List ℕ → Option AttestationReport
  pub report_bytes : AttestationReportData → List ℕ
