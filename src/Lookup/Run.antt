-- ===== src/Lookup/Run.antt =====
-- What a computation of oak_functions_service/src/lookup_htbl.rs comes to: a value, a panic, or a
-- `loop` that does not end.
use not_an_oak_fork.Base.{◌≡◌, Bool, true, false}

pub data Run {ℓ} (A : Type ℓ) : Type ℓ where
  ok : A → Run A
  panic : Run A
  endless : Run A

infixl 5 ◌>>=◌
abbrev pub ◌>>=◌ {ℓ κ} : {A : Type ℓ} {B : Type κ} → Run A → (A → Run B) → Run B
ok a >>= f = f a
panic >>= f = panic
endless >>= f = endless

-- an index or a slice that is checked, and `assert!`
abbrev pub checked {ℓ} : {A : Type ℓ} → Bool → A → Run A
checked true a = ok a
checked false a = panic

pub >>=-ok {ℓ κ} :
    {A : Type ℓ} {B : Type κ} (m : Run A) (f : A → Run B) {a : A} {b : B}
    → m ≡ ok a
    → f a ≡ ok b
    → (m >>= f) ≡ ok b
>>=-ok m f e h = rw e h
