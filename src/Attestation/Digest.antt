-- ===== src/Attestation/Digest.antt =====
-- Digests (proto/digest.proto) and how oak_attestation_verification/src/util.rs compares them.
-- `hex` is the crate's `encode` and `decode`. Texts are their UTF-8 bytes.
use not_an_oak_fork.Base.{
  ℕ, ◌+◌, ◌&&◌, not, Option, List, [], Result, ok, bail, context, ◌>>=◌, ltb, if◌then◌else◌,
  bytes_eq, is_empty,
}

pub record RawDigest : Type 0 where
  pub psha2 : List ℕ
  pub sha1 : List ℕ
  pub sha2_256 : List ℕ
  pub sha2_512 : List ℕ
  pub sha3_512 : List ℕ
  pub sha3_384 : List ℕ
  pub sha3_256 : List ℕ
  pub sha3_224 : List ℕ
  pub sha2_384 : List ℕ

pub record HexDigest : Type 0 where
  pub psha2 : List ℕ
  pub sha1 : List ℕ
  pub sha2_256 : List ℕ
  pub sha2_512 : List ℕ
  pub sha3_512 : List ℕ
  pub sha3_384 : List ℕ
  pub sha3_256 : List ℕ
  pub sha3_224 : List ℕ
  pub sha2_384 : List ℕ

abbrev pub empty_raw : RawDigest
empty_raw = record {
  psha2 = [];
  sha1 = [];
  sha2_256 = [];
  sha2_512 = [];
  sha3_512 = [];
  sha3_384 = [];
  sha3_256 = [];
  sha3_224 = [];
  sha2_384 = [];
}

abbrev pub empty_hex : HexDigest
empty_hex = record {
  psha2 = [];
  sha1 = [];
  sha2_256 = [];
  sha2_512 = [];
  sha3_512 = [];
  sha3_384 = [];
  sha3_256 = [];
  sha3_224 = [];
  sha2_384 = [];
}

pub data MatchResult : Type 0 where
  same different undecidable contradictory : MatchResult

-- The two counters of `get_hex_digest_match`, and the block that it repeats for each field.
pub record Counts : Type 0 where
  pub same : ℕ
  pub different : ℕ

unfoldable pub count_field : List ℕ → List ℕ → Counts → Counts
count_field a b n =
    if not (is_empty a) && not (is_empty b)
    then (if bytes_eq a b
        then record n { same = n.same + 1 }
        else record n { different = n.different + 1 })
    else n

unfoldable pub count_fields : HexDigest → HexDigest → Counts
unfolding count_field
count_fields a b = count_field a.sha2_384 b.sha2_384 (
    count_field a.sha3_224 b.sha3_224 (
      count_field a.sha3_256 b.sha3_256 (
        count_field a.sha3_384 b.sha3_384 (
          count_field a.sha3_512 b.sha3_512 (
            count_field a.sha2_512 b.sha2_512 (
              count_field a.sha2_256 b.sha2_256 (
                count_field a.sha1 b.sha1
                  (count_field a.psha2 b.psha2 (record { same = 0; different = 0 })))))))))

unfoldable pub judge : Counts → MatchResult
judge n =
    if ltb 0 n.same
    then (if ltb 0 n.different then contradictory else same)
    else (if ltb 0 n.different then different else undecidable)

unfoldable pub get_hex_digest_match : HexDigest → HexDigest → MatchResult
unfolding count_fields judge
get_hex_digest_match a b = judge (count_fields a b)

-- what `is_hex_digest_match` and `is_raw_digest_match` make of a match result
unfoldable pub match_outcome : MatchResult → Result (Unit {0})
match_outcome same = ok tt
match_outcome different = bail "mismatched digests"
match_outcome undecidable = bail "invalid digests"
match_outcome contradictory = bail "hash collision"

unfoldable pub is_hex_digest_match : HexDigest → HexDigest → Result (Unit {0})
unfolding match_outcome get_hex_digest_match
is_hex_digest_match actual expected = match_outcome (get_hex_digest_match actual expected)

module _ (encode : List ℕ → List ℕ) where
  unfoldable pub raw_to_hex_digest : RawDigest → HexDigest
  raw_to_hex_digest r = record {
    psha2 = encode r.psha2;
    sha1 = encode r.sha1;
    sha2_256 = encode r.sha2_256;
    sha2_512 = encode r.sha2_512;
    sha3_512 = encode r.sha3_512;
    sha3_384 = encode r.sha3_384;
    sha3_256 = encode r.sha3_256;
    sha3_224 = encode r.sha3_224;
    sha2_384 = encode r.sha2_384;
  }

  unfoldable pub get_raw_digest_match : RawDigest → RawDigest → MatchResult
  unfolding raw_to_hex_digest get_hex_digest_match
  get_raw_digest_match a b = get_hex_digest_match (raw_to_hex_digest a) (raw_to_hex_digest b)

  unfoldable pub is_raw_digest_match : RawDigest → RawDigest → Result (Unit {0})
  unfolding match_outcome get_raw_digest_match
  is_raw_digest_match actual expected = match_outcome (get_raw_digest_match actual expected)

module _ (decode : List ℕ → Option (List ℕ)) where
  unfoldable pub hex_to_raw_digest : HexDigest → Result RawDigest
  hex_to_raw_digest h = do
    psha2 ← context "could not decode field psha2" (decode h.psha2)
    sha1 ← context "could not decode field sha1" (decode h.sha1)
    sha2_256 ← context "could not decode field sha2_256" (decode h.sha2_256)
    sha2_512 ← context "could not decode field sha2_512" (decode h.sha2_512)
    sha3_512 ← context "could not decode field sha3_512" (decode h.sha3_512)
    sha3_384 ← context "could not decode field sha3_384" (decode h.sha3_384)
    sha3_256 ← context "could not decode field sha3_256" (decode h.sha3_256)
    sha3_224 ← context "could not decode field sha3_224" (decode h.sha3_224)
    sha2_384 ← context "could not decode field sha2_384" (decode h.sha2_384)
    ok (record {
      psha2 = psha2;
      sha1 = sha1;
      sha2_256 = sha2_256;
      sha2_512 = sha2_512;
      sha3_512 = sha3_512;
      sha3_384 = sha3_384;
      sha3_256 = sha3_256;
      sha3_224 = sha3_224;
      sha2_384 = sha2_384;
    })
