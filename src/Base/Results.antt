-- ===== src/Base/Results.antt =====
-- `anyhow::Result`: a value, an error with its chain of contexts, or a panic; and how `?`,
-- `context` and `ensure!` use it.
use Prim.Native.String.{String}
use mathlib.Core.Path.{◌≡◌, refl}
use mathlib.Core.Logic.{◌↔◌}
use mathlib.Core.Bool.{Bool, true, false}
use mathlib.Core.Option.{Option, none, some}
use mathlib.Core.List.{List, [], ◌∷◌}

-- The messages of an `anyhow::Error`, the outermost context first.
abbrev pub Error : Type 0
Error = List String

pub data Result {ℓ} (A : Type ℓ) : Type ℓ where
  ok : A → Result A
  err : Error → Result A
  -- an `unwrap`, `expect`, `assert!`, slice or overflow check that fails
  panic : Result A

-- `bail!` and `anyhow!`
abbrev pub bail {ℓ} : {A : Type ℓ} → String → Result A
bail m = err (m ∷ [])

-- `Result::context`
abbrev pub with_context {ℓ} : {A : Type ℓ} → String → Result A → Result A
with_context m (ok a) = ok a
with_context m (err e) = err (m ∷ e)
with_context m panic = panic

-- `Option::context` and `ok_or_else`
abbrev pub context {ℓ} : {A : Type ℓ} → String → Option A → Result A
context m none = bail m
context m (some a) = ok a

-- `ensure!`
abbrev pub ensure : Bool → String → Result (Unit {0})
ensure true m = ok tt
ensure false m = bail m

-- `unwrap` and `expect`
abbrev pub unwrap {ℓ} : {A : Type ℓ} → Option A → Result A
unwrap none = panic
unwrap (some a) = ok a

abbrev pub is_ok {ℓ} : {A : Type ℓ} → Result A → Bool
is_ok (ok a) = true
is_ok (err e) = false
is_ok panic = false

infixl 5 ◌>>=◌ ◌>>◌
abbrev pub ◌>>=◌ {κ ℓ} : {V : Type κ} {W : Type ℓ} → Result V → (V → Result W) → Result W
panic >>= next = panic
err texts >>= next = err texts
ok v >>= next = next v

-- the same where the value is not used
abbrev pub ◌>>◌ {κ ℓ} : {V : Type κ} {W : Type ℓ} → Result V → Result W → Result W
first >> second = first >>= (λ v. second)

-- What a `?` that went through says,
pub >>=-eq-ok {κ ℓ} :
    {V : Type κ} {W : Type ℓ} (r : Result V) (next : V → Result W) {w : W}
    → (r >>= next) ≡ ok w
    → (v : V) × (r ≡ ok v) × (next v ≡ ok w)
>>=-eq-ok panic next e = cc
>>=-eq-ok (err texts) next e = cc
>>=-eq-ok (ok v) next e = (v, refl, e)

-- and how one is made up
pub >>=-ok {ℓ κ} :
    {A : Type ℓ} {B : Type κ} (m : Result A) (f : A → Result B) {a : A} {b : B}
    → m ≡ ok a
    → f a ≡ ok b
    → (m >>= f) ≡ ok b
>>=-ok m f e h = rw e h

pub context-ok {ℓ} :
    {A : Type ℓ} (s : String) (o : Option A) {a : A} → o ≡ some a → context s o ≡ ok a
context-ok s o e = rw e refl

pub with_context-eq-ok {ℓ} :
    {A : Type ℓ} (s : String) (m : Result A) {a : A} → with_context s m ≡ ok a → m ≡ ok a
with_context-eq-ok s (ok a) h = h
with_context-eq-ok s (err e) h = cc
with_context-eq-ok s panic h = cc

pub context-eq-ok {ℓ} :
    {A : Type ℓ} (s : String) (o : Option A) {a : A} → context s o ≡ ok a → o ≡ some a
context-eq-ok s none h = cc
context-eq-ok s (some a) h = cc

pub unwrap-eq-ok {ℓ} : {A : Type ℓ} (o : Option A) {a : A} → unwrap o ≡ ok a → o ≡ some a
unwrap-eq-ok none h = cc
unwrap-eq-ok (some a) h = cc

pub ensure-eq-ok : (b : Bool) (s : String) {u : Unit {0}} → ensure b s ≡ ok u → b ≡ true
ensure-eq-ok true s h = refl
ensure-eq-ok false s h = cc

pub is_ok_iff : (r : Result (Unit {0})) → (is_ok r ≡ true) ↔ (r ≡ ok tt)
is_ok_iff (ok u) = (λ e. refl, λ e. refl)
is_ok_iff (err e) = (λ e. cc, λ e. cc)
is_ok_iff panic = (λ e. cc, λ e. cc)

pub ok-inj {ℓ} : {A : Type ℓ} {a b : A} → ok a ≡ ok b → a ≡ b
ok-inj h = cc

pub some-inj {ℓ} : {A : Type ℓ} {a b : A} → some a ≡ some b → a ≡ b
some-inj h = cc
