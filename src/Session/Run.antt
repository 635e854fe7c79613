-- ===== src/Session/Run.antt =====
-- The errors of oak_crypto/src/noise_handshake/error.rs, and what a computation of the handshake
-- comes to.
use not_an_oak_fork.Base.{ℕ, ◌≡◌, Bool, true, false, Option, some, none, String}

pub data Error : Type 0 where
  data_too_large : ℕ → Error
  decrypt_failed : Error
  decryption_padding : Error
  ecdh_failed : Error
  empty_plaintext : Error
  invalid_handshake : Error
  invalid_private_key : Error
  unknown : String → Error

pub data Run {ℓ} (A : Type ℓ) : Type ℓ where
  ok : A → Run A
  err : Error → Run A
  -- an `unwrap`, a slice or an overflow check that fails
  panic : Run A

infixl 5 ◌>>=◌
abbrev pub ◌>>=◌ {ℓ κ} : {A : Type ℓ} {B : Type κ} → Run A → (A → Run B) → Run B
ok a >>= f = f a
err e >>= f = err e
panic >>= f = panic

abbrev pub unwrap {ℓ} : {A : Type ℓ} → Option A → Run A
unwrap none = panic
unwrap (some a) = ok a

-- `map_err` of a `Result<_, ()>`
abbrev pub or_error {ℓ} : {A : Type ℓ} → Error → Option A → Run A
or_error e none = err e
or_error e (some a) = ok a

-- an index or a slice that is checked, and `assert!`
abbrev pub checked {ℓ} : {A : Type ℓ} → Bool → A → Run A
checked true a = ok a
checked false a = panic

pub >>=-ok {ℓ κ} :
    {A : Type ℓ} {B : Type κ} (m : Run A) (f : A → Run B) {a : A} {b : B}
    → m ≡ ok a
    → f a ≡ ok b
    → (m >>= f) ≡ ok b
>>=-ok m f e h = rw e h
