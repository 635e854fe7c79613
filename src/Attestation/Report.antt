-- ===== src/Attestation/Report.antt =====
-- oak_sev_snp_attestation_report/src/lib.rs: the AMD SEV-SNP attestation report and the checks of
-- its format. Of the report's fields those stand here that some code of the repository reads.
use not_an_oak_fork.Base.{
  ℕ, ◌/◌, ◌%◌, Bool, false, ◌||◌, not, Option, none, some, List, [], ◌∷◌, Result, ok, bail, ltb,
  ◌==◌, if◌then◌else◌, context, ◌>>=◌, ◌>>◌,
}

pub record TcbVersion : Type 0 where
  pub boot_loader : ℕ
  pub tee : ℕ
  pub reserved : List ℕ
  pub snp : ℕ
  pub microcode : ℕ

pub record GuestPolicy : Type 0 where
  pub abi_minor : ℕ
  pub abi_major : ℕ
  pub flags : ℕ
  pub reserved : ℕ

pub record AttestationReportData : Type 0 where
  pub policy : GuestPolicy
  pub vmpl : ℕ
  pub signature_algo : ℕ
  pub current_tcb : TcbVersion
  pub platform_info : ℕ
  pub author_key_en : ℕ
  pub report_data : List ℕ
  pub measurement : List ℕ
  pub reported_tcb : TcbVersion
  pub reserved_0 : List ℕ
  pub chip_id : List ℕ
  pub committed_tcb : TcbVersion
  pub reserved_1 : ℕ
  pub reserved_2 : ℕ
  pub reserved_3 : List ℕ

pub record EcdsaSignature : Type 0 where
  pub r : List ℕ
  pub s : List ℕ
  pub reserved : List ℕ

pub record AttestationReport : Type 0 where
  pub report_body : AttestationReportData
  pub signature : EcdsaSignature

pub data SigningAlgorithm : Type 0 where
  invalid_algorithm ecdsa_p384_sha384 : SigningAlgorithm

pub data AuthorKey : Type 0 where
  author_key_no author_key_yes : AuthorKey

abbrev any_nonzero : List ℕ → Bool
any_nonzero [] = false
any_nonzero (x ∷ xs) = not (x == 0) || any_nonzero xs

-- `PlatformInfo::from_bits`, `AuthorKey::from_repr`, `SigningAlgorithm::from_repr` and
-- `PolicyFlags::from_bits`, which fail on an unknown bit or value. The flags stay numbers.
unfoldable pub get_platform_info : AttestationReportData → Option ℕ
get_platform_info d = if ltb d.platform_info 4 then some d.platform_info else none

unfoldable pub get_author_key_en : AttestationReportData → Option AuthorKey
get_author_key_en d =
    if d.author_key_en == 0
    then some author_key_no
    else if d.author_key_en == 1
    then some author_key_yes
    else none

unfoldable pub get_signature_algo : AttestationReportData → Option SigningAlgorithm
get_signature_algo d =
    if d.signature_algo == 0
    then some invalid_algorithm
    else if d.signature_algo == 1
    then some ecdsa_p384_sha384
    else none

unfoldable pub get_flags : GuestPolicy → Option ℕ
get_flags p = if ltb p.flags 32 then some p.flags else none

abbrev require {ℓ} : {A : Type ℓ} → Option A → Result (Unit {0}) → Result (Unit {0})
require none e = e
require (some a) e = ok tt

unfoldable pub policy_validate : GuestPolicy → Result (Unit {0})
unfolding get_flags
policy_validate p =
    if not (p.reserved == 0)
    then bail "nonzero value in _reserved"
    else require (get_flags p) (bail "invalid flags")

unfoldable pub tcb_validate : TcbVersion → Result (Unit {0})
tcb_validate t = if any_nonzero t.reserved then bail "nonzero value in _reserved" else ok tt

-- the tests of `AttestationReportData::validate` behind those of its parts
unfoldable pub reserved_validate : AttestationReportData → Result (Unit {0})
unfolding get_platform_info get_author_key_en get_signature_algo
reserved_validate d =
    if any_nonzero d.reserved_0
    then bail "nonzero value in _reserved_0"
    else if not (d.reserved_1 == 0)
    then bail "nonzero value in _reserved_1"
    else if not (d.reserved_2 == 0)
    then bail "nonzero value in _reserved_2"
    else if any_nonzero d.reserved_3
    then bail "nonzero value in _reserved_3"
    else (do
      require (get_signature_algo d) (bail "invalid signature algorithm")
      require (get_platform_info d) (bail "invalid platform info")
      require (get_author_key_en d) (bail "invalid value for author_key_en"))

unfoldable pub data_validate : AttestationReportData → Result (Unit {0})
unfolding policy_validate tcb_validate reserved_validate
data_validate d = do
  policy_validate d.policy
  tcb_validate d.current_tcb
  tcb_validate d.reported_tcb
  tcb_validate d.committed_tcb
  reserved_validate d

unfoldable pub validate_format : EcdsaSignature → Result (Unit {0})
validate_format s = if any_nonzero s.reserved then bail "nonzero value in _reserved" else ok tt

unfoldable pub validate : AttestationReport → Result (Unit {0})
unfolding data_validate validate_format
validate r = do data_validate r.report_body; validate_format r.signature

-- DEBUG is bit 3.
unfoldable pub has_debug_flag : AttestationReport → Result Bool
unfolding get_flags
has_debug_flag r = do
  flags ← context "Failed to parse flags" (get_flags r.report_body.policy)
  ok (flags / 8 % 2 == 1)
