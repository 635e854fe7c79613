-- ===== src/Lookup/Hash.antt =====
-- The hash of oak_functions_service/src/lookup_htbl.rs. A u64 is a number with its wrap-around
-- written out.
use Prim.Native.Nat.{bit_xor}
use not_an_oak_fork.Base.{
  ℕ, zero, suc, ◌+◌, ◌*◌, ◌/◌, ◌%◌, ◌^◌, if◌then◌else◌, leb, List, ◌++◌, length, take, drop,
  replicate, from_le_bytes, is_empty,
}

unfoldable pub rotate_left_32 : ℕ → ℕ
rotate_left_32 v = (v * 2 ^ 32) % 2 ^ 64 + v / 2 ^ 32

unfoldable pub hash_u64 : ℕ → ℕ → ℕ
unfolding rotate_left_32
hash_u64 v hash_secret =
    let v1 = bit_xor ((v + hash_secret) % 2 ^ 64) (rotate_left_32 v) in
    let v2 = v1 * 0x9d460858ea81ac79 in bit_xor (bit_xor v (v2 % 2 ^ 64)) (v2 / 2 ^ 64) % 2 ^ 64

-- the end of `hash`, where `bytes` still holds the last whole block
unfoldable pub hash_rest : List ℕ → ℕ → List ℕ → ℕ → ℕ
unfolding hash_u64
hash_rest v val bytes hash_secret =
    if is_empty v
    then val
    else hash_u64 (bit_xor val (from_le_bytes (v ++ drop (length v) bytes))) hash_secret

-- The loop of `hash`, over what is left of the bytes. As many rounds as there are bytes are enough.
unfoldable pub hash_loop : ℕ → List ℕ → ℕ → List ℕ → ℕ → ℕ
unfolding hash_u64 hash_rest
hash_loop zero v val bytes hash_secret = hash_rest v val bytes hash_secret
hash_loop (suc rounds) v val bytes hash_secret =
    let rest =
      hash_loop rounds (drop 8 v) (hash_u64 (bit_xor val (from_le_bytes (take 8 v))) hash_secret)
        (take 8 v) hash_secret in
    if leb 8 (length v) then rest else hash_rest v val bytes hash_secret

unfoldable pub hash : List ℕ → ℕ → ℕ
unfolding hash_loop
hash v hash_secret = hash_loop (length v) v 0 (replicate 8 0) hash_secret

unfoldable pub reduce : ℕ → ℕ → ℕ
reduce hash table_len = hash * table_len / 2 ^ 64
