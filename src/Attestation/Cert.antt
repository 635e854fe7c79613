-- ===== src/Attestation/Cert.antt =====
-- oak_dice/src/cert.rs: public keys in COSE form, and the claims of a DICE certificate. The numbers
-- are those of the IANA registry.
use not_an_oak_fork.Base.{
  ℕ, ℤ, pos, negsuc, eq_ℤ, Bool, true, false, ◌||◌, Option, none, some, List, [], ◌∷◌, Result, ok,
  panic, context, ensure, ◌>>=◌, ◌>>◌, ◌==◌, if◌then◌else◌, length, ◌&&◌,
}
use not_an_oak_fork.Attestation.Externals.{
  Externals, Value, Entries, Label, private_use, other_label, ClaimsSet, CoseKey,
}

abbrev subject_public_key_id : ℤ
subject_public_key_id = negsuc 4670551

-- `KeyType`, `Algorithm`, `KeyOperation`, `EllipticCurve` and the key parameters
abbrev okp : ℤ
okp = pos 1

abbrev ec2 : ℤ
ec2 = pos 2

abbrev es256 : ℤ
es256 = negsuc 6

abbrev ecdh_es_a256kw : ℤ
ecdh_es_a256kw = negsuc 30

abbrev op_verify : ℤ
op_verify = pos 2

abbrev op_wrap_key : ℤ
op_wrap_key = pos 5

abbrev p_256 : ℤ
p_256 = pos 1

abbrev x25519 : ℤ
x25519 = pos 4

abbrev param_crv : ℤ
param_crv = negsuc 0

abbrev param_x : ℤ
param_x = negsuc 1

abbrev param_y : ℤ
param_y = negsuc 2

abbrev pub is_integer : ℤ → Value → Bool
is_integer n (Value.integer m) = eq_ℤ m n
is_integer n _ = false

abbrev pub as_bytes : Value → Option (List ℕ)
as_bytes (Value.bytes b) = some b
as_bytes _ = none

abbrev contains : ℤ → List ℤ → Bool
contains n [] = false
contains n (m ∷ ms) = eq_ℤ m n || contains n ms

abbrev is_alg : ℤ → Option ℤ → Bool
is_alg n none = false
is_alg n (some m) = eq_ℤ m n

unfoldable pub has_curve : ℤ → List (ℤ × Value) → Bool
has_curve curve [] = false
has_curve curve ((label, value) ∷ rest) =
    (eq_ℤ label param_crv && is_integer curve value) || has_curve curve rest

abbrev if_labelled : Bool → Option (List ℕ) → Option (List ℕ) → Option (List ℕ)
if_labelled true (some b) rest = some b
if_labelled true none rest = rest
if_labelled false _ rest = rest

-- the first parameter of the given label that is a byte string
unfoldable pub find_bytes : ℤ → List (ℤ × Value) → Option (List ℕ)
find_bytes label [] = none
find_bytes label ((l, value) ∷ rest) =
    if_labelled (eq_ℤ l label) (as_bytes value) (find_bytes label rest)

unfoldable pub cose_key_to_hpke_public_key : CoseKey → Result (List ℕ)
unfolding has_curve find_bytes
cose_key_to_hpke_public_key key = do
  ensure (eq_ℤ key.kty okp) "invalid key type"
  ensure (is_alg ecdh_es_a256kw key.alg) "invalid algorithm"
  ensure (contains op_wrap_key key.key_ops) "invalid key operations"
  ensure (has_curve x25519 key.params) "invalid elliptic curve"
  context "public key not found" (find_bytes param_x key.params)

-- `FieldBytes::from_slice` panics unless the coordinate has 32 bytes.
unfoldable pub field_bytes : List ℕ → Result (List ℕ)
field_bytes b = if length b == 32 then ok b else panic

abbrev is_label : ℤ → Label → Bool
is_label n (private_use m) = eq_ℤ m n
is_label n other_label = false

unfoldable pub find_claim_bytes : ℤ → List (Label × Value) → Option (List ℕ)
find_claim_bytes id [] = none
find_claim_bytes id ((l, value) ∷ rest) =
    if_labelled (is_label id l) (as_bytes value) (find_claim_bytes id rest)

abbrev as_map : Value → Option Entries
as_map (Value.map m) = some m
as_map _ = none

abbrev if_map : Bool → Option Entries → Option Entries → Option Entries
if_map true (some m) rest = some m
if_map true none rest = rest
if_map false _ rest = rest

-- the first claim of the given private label that is a map
unfoldable pub find_claim_map : ℤ → List (Label × Value) → Option Entries
find_claim_map id [] = none
find_claim_map id ((l, value) ∷ rest) =
    if_map (is_label id l) (as_map value) (find_claim_map id rest)

module _ (x : Externals) where
  open x use {VerifyingKey, key_from_point, cose_key_from_slice}

  unfoldable pub cose_key_to_verifying_key : CoseKey → Result VerifyingKey
  unfolding has_curve find_bytes field_bytes
  cose_key_to_verifying_key key = do
    ensure (eq_ℤ key.kty ec2) "invalid key type"
    ensure (is_alg es256 key.alg) "invalid algorithm"
    ensure (contains op_verify key.key_ops) "invalid key operations"
    ensure (has_curve p_256 key.params) "invalid elliptic curve"
    point_x ← context "x component of public key not found" (find_bytes param_x key.params)
    point_y ← context "x component of public key not found" (find_bytes param_y key.params)
    field_x ← field_bytes point_x
    field_y ← field_bytes point_y
    context "invalid public key coordinates" (key_from_point field_x field_y)

  unfoldable pub get_public_key_from_claims_set : ClaimsSet → Result CoseKey
  unfolding find_claim_bytes
  get_public_key_from_claims_set claims = do
    key_bytes ← context "public key not found" (find_claim_bytes subject_public_key_id claims.rest)
    context "couldn't deserialize public key" (cose_key_from_slice key_bytes)
