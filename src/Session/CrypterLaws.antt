-- ===== src/Session/CrypterLaws.antt =====
-- What one `Crypter` of oak_crypto/src/noise_handshake/mod.rs encrypts, the other one decrypts.
use not_an_oak_fork.Base.{
  ℕ, zero, suc, ◌+◌, ◌-◌, ◌%◌, ◌^◌, ◌≤◌, ◌<◌, ◌≡◌, refl, ap, ◌∙◌, false, ltb, leb, [], ◌∷◌, ◌++◌,
  length, take, replicate, set, get_or, is_empty, length-append, length-replicate, length-set,
  get_or-set_self, take-append, arith,
}
use not_an_oak_fork.Session.Run.{ok}
use not_an_oak_fork.Session.Crypto.{Bytes}
use not_an_oak_fork.Session.Crypter.{Nonce, next, to_be_bytes, padded_size, pad, unpad}

pub ltb-false : (a b : ℕ) → b ≤ a → ltb a b ≡ false
ltb-false a b h = ground arith

leb-false : (a b : ℕ) → b < a → leb a b ≡ false
leb-false a b h = ground arith

-- the bytes of a nonce
abbrev pub nonce_of : Nonce → Bytes
nonce_of n = replicate 8 0 ++ to_be_bytes n.nonce

pub length-nonce_of : (n : Nonce) → length (nonce_of n) ≡ 12
unfolding to_be_bytes
length-nonce_of n = refl

pub next-ok :
    (n : Nonce) → n.nonce ≤ 2 ^ 24 → next n ≡ (ok (nonce_of n), record { nonce = suc n.nonce })
unfolding next
next-ok n h = rw (ltb-false (2 ^ 24) n.nonce h) refl

pub padded_size-bounds : (n : ℕ) → (n + 1 ≤ padded_size n) × (padded_size n ≤ n + 32)
unfolding padded_size
padded_size-bounds n = omega arith

-- A write at or past the index of an entry leaves what is before it.
take-set : (n i v : ℕ) (xs : Bytes) → n ≤ i → take n (set xs i v) ≡ take n xs
take-set zero i v xs h = refl
take-set (suc n) i v [] h = refl
take-set (suc n) zero v (x ∷ xs) h = elim h [ ]
take-set (suc n) (suc i) v (x ∷ xs) h = ap (λ t. x ∷ t) (take-set n i v xs (omega arith))

length-filled :
    (p : Bytes) (size : ℕ) → length p ≤ size → length (p ++ replicate (size - length p) 0) ≡ size
length-filled p size h = omega (
  arith,
  length-append p (replicate (size - length p) 0),
  length-replicate {A = ℕ} (size - length p) 0,
)

pub length-pad : (p : Bytes) → length (pad p) ≡ padded_size (length p)
unfolding pad
length-pad p =
    let (lo, _) = padded_size-bounds (length p) in
    length-set (p ++ replicate (padded_size (length p) - length p) 0) _ _
    ∙ length-filled p (padded_size (length p)) (omega arith)

is_empty-false : (xs : Bytes) → 0 < length xs → is_empty xs ≡ false
is_empty-false [] h = elim h [ ]
is_empty-false (x ∷ xs) h = refl

pad-last :
    (p : Bytes) → get_or (pad p) (length (pad p) - 1) 0 ≡ padded_size (length p) - length p - 1
unfolding pad
pad-last p =
    let (lo, hi) = padded_size-bounds (length p) in
    let size = padded_size (length p) in
    let filled = p ++ replicate (size - length p) 0 in
    let n : length filled ≡ size = length-filled p size (omega arith) in
    let m : length (pad p) ≡ size = length-pad p in
    let small : (size - length p - 1) % 256 ≡ size - length p - 1 = omega arith in
    rw m (get_or-set_self filled (size - 1) _ 0 (omega arith) ∙ small)

pad-take :
    (p : Bytes) → take (length (pad p) - (padded_size (length p) - length p - 1) - 1) (pad p) ≡ p
unfolding pad
pad-take p =
    let (lo, hi) = padded_size-bounds (length p) in
    let size = padded_size (length p) in
    let m : length (pad p) ≡ size = length-pad p in
    let k : length (pad p) - (size - length p - 1) - 1 ≡ length p = omega arith in
    rw k (take-set (length p) (size - 1) _ _ (omega arith) ∙ take-append p _)

-- The padding of a message is removed again.
pub unpad-pad : (p : Bytes) → unpad (pad p) ≡ ok p
unfolding unpad
unpad-pad p =
    let (lo, hi) = padded_size-bounds (length p) in
    let size = padded_size (length p) in
    let zeros = size - length p - 1 in
    let n = length-pad p in
    let last : get_or (pad p) (length (pad p) - 1) 0 ≡ zeros = pad-last p in
    let nonempty : is_empty (pad p) ≡ false = is_empty-false (pad p) (omega arith) in
    let rest : take (length (pad p) - zeros - 1) (pad p) ≡ p = pad-take p in
    rw last (rw nonempty (rw (leb-false (length (pad p)) zeros (omega arith)) (ap ok rest)))
