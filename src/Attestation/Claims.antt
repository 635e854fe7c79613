-- ===== src/Attestation/Claims.antt =====
-- oak_attestation_verification/src/claims.rs: endorsement statements.
use not_an_oak_fork.Base.{
  ℕ, ℤ, quot, ltb_ℤ, ◌&&◌, ◌||◌, not, Option, none, some, List, [], ◌∷◌, Result, ok, bail, context,
  ◌>>=◌, if◌then◌else◌, codes, bytes_eq, is_empty,
}
use not_an_oak_fork.Attestation.Digest.{HexDigest, empty_hex}
use not_an_oak_fork.Attestation.Externals.{Externals, ClaimValidity, Subject, EndorsementStatement}

abbrev pub predicate_v1 : List ℕ
predicate_v1 = codes "https://github.com/project-oak/transparent-release/claim/v1"

abbrev pub predicate_v2 : List ℕ
predicate_v2 = codes "https://github.com/project-oak/transparent-release/claim/v2"

abbrev pub endorsement_v2 : List ℕ
endorsement_v2 = codes "https://github.com/project-oak/transparent-release/endorsement/v2"

abbrev pub statement_v1 : List ℕ
statement_v1 = codes "https://in-toto.io/Statement/v1"

pub data InvalidClaimData : Type 0 where
  statement_type predicate_type claim_type not_before_issued not_before_late : InvalidClaimData

-- `Result<(), InvalidClaimData>`
pub data Validation : Type 0 where
  valid : Validation
  invalid : InvalidClaimData → Validation

abbrev pub and_then : Validation → Validation → Validation
and_then valid v = v
and_then (invalid e) v = invalid e

unfoldable pub validate_period : ℤ → Option ClaimValidity → Validation
validate_period issued_on none = valid
validate_period issued_on (some v) =
    if ltb_ℤ v.not_before issued_on
    then invalid not_before_issued
    else if ltb_ℤ v.not_after v.not_before
    then invalid not_before_late
    else valid

unfoldable pub validate_claim : EndorsementStatement → Validation
unfolding validate_period
validate_claim c =
    if not (bytes_eq c.statement_type statement_v1)
    then invalid statement_type
    else if not (bytes_eq c.predicate_type predicate_v1)
        && not (bytes_eq c.predicate_type predicate_v2)
    then invalid predicate_type
    else validate_period c.predicate.issued_on c.predicate.validity

-- Milliseconds, rounded towards zero.
abbrev pub millis : ℤ → ℤ
millis nanos = quot nanos 1_000_000

unfoldable pub verify_validity_period : ℤ → Option ClaimValidity → Result (Unit {0})
verify_validity_period now none = bail "the validity field is not set"
verify_validity_period now (some v) =
    if ltb_ℤ now (millis v.not_before)
    then bail "the claim is not yet applicable"
    else if ltb_ℤ (millis v.not_after) now
    then bail "the claim is no longer applicable"
    else ok tt

unfoldable pub verify_validity_duration : ℤ → EndorsementStatement → Result (Unit {0})
unfolding verify_validity_period
verify_validity_duration now c = verify_validity_period now c.predicate.validity

unfoldable pub validate_endorsement : EndorsementStatement → Validation
unfolding validate_claim
validate_endorsement c =
    and_then (validate_claim c)
      (if not (bytes_eq c.predicate.claim_type endorsement_v2) then invalid claim_type else valid)

-- A field that is set once: a second value for it is an error.
unfoldable pub set_once : List ℕ → List ℕ → Result (List ℕ)
set_once old value = if is_empty old then ok value else bail "duplicate key"

unfoldable pub set_digest_field_from_map_entry : HexDigest → List ℕ → List ℕ → Result HexDigest
unfolding set_once
set_digest_field_from_map_entry d key value =
    if bytes_eq key (codes "psha2")
    then (set_once d.psha2 value >>= λ v. ok (record d { psha2 = v }))
    else if bytes_eq key (codes "sha1")
    then (set_once d.sha1 value >>= λ v. ok (record d { sha1 = v }))
    else if bytes_eq key (codes "sha256") || bytes_eq key (codes "sha2_256")
    then (set_once d.sha2_256 value >>= λ v. ok (record d { sha2_256 = v }))
    else if bytes_eq key (codes "sha512") || bytes_eq key (codes "sha2_512")
    then (set_once d.sha2_512 value >>= λ v. ok (record d { sha2_512 = v }))
    else if bytes_eq key (codes "sha3_512")
    then (set_once d.sha3_512 value >>= λ v. ok (record d { sha3_512 = v }))
    else if bytes_eq key (codes "sha3_384")
    then (set_once d.sha3_384 value >>= λ v. ok (record d { sha3_384 = v }))
    else if bytes_eq key (codes "sha3_256")
    then (set_once d.sha3_256 value >>= λ v. ok (record d { sha3_256 = v }))
    else if bytes_eq key (codes "sha3_224")
    then (set_once d.sha3_224 value >>= λ v. ok (record d { sha3_224 = v }))
    else if bytes_eq key (codes "sha384") || bytes_eq key (codes "sha2_384")
    then (set_once d.sha2_384 value >>= λ v. ok (record d { sha2_384 = v }))
    else bail "unknown digest key in endorsement statement"

unfoldable pub fold_digest : HexDigest → List (List ℕ × List ℕ) → Result HexDigest
unfolding set_digest_field_from_map_entry
fold_digest d [] = ok d
fold_digest d ((key, value) ∷ rest) =
    set_digest_field_from_map_entry d key value >>= λ d'. fold_digest d' rest

unfoldable pub digest_of_subjects : List Subject → Result HexDigest
unfolding fold_digest
digest_of_subjects [] = bail "expected a single endorsement subject"
digest_of_subjects (s ∷ []) = fold_digest empty_hex s.digest
digest_of_subjects (s ∷ t ∷ r) = bail "expected a single endorsement subject"

unfoldable pub get_digest : EndorsementStatement → Result HexDigest
unfolding digest_of_subjects
get_digest c = digest_of_subjects c.subject

unfoldable pub parse_endorsement_statement : Externals → List ℕ → Result EndorsementStatement
parse_endorsement_statement x bytes = context "parsing endorsement bytes" (x.parse_statement bytes)
