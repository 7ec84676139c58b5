-- ===== src/Prelude/Results.antt =====
-- The `Result` of code whose error is a type of its own, and the chain of `?`.
use mathlib.Core.Path.{◌≡◌, refl}
use mathlib.Core.Logic.{◌⊎◌, inl, inr}
use mathlib.Core.Bool.{Bool, true, false}
use mathlib.Core.Option.{Option, none, some}
use mpp_rs.Prelude.Tests.{if◌then◌else◌}

pub data Result {ℓ} (E : Type 0) (A : Type ℓ) : Type ℓ where
  err : E → Result E A
  ok : A → Result E A

infixr 5 ◌>>=◌ ◌>>◌
abbrev pub ◌>>=◌ {ℓ ℓ'} :
    {E : Type 0} {A : Type ℓ} {B : Type ℓ'} → Result E A → (A → Result E B) → Result E B
err reason >>= next = err reason
ok value >>= next = next value

abbrev pub ◌>>◌ {ℓ} : {E : Type 0} {A : Type ℓ} → Result E (Unit {0}) → Result E A → Result E A
first >> second = first >>= λ _. second

abbrev pub ok_or {ℓ} : {E : Type 0} {A : Type ℓ} → Option A → E → Result E A
ok_or none reason = err reason
ok_or (some value) reason = ok value

-- `if b { return Err(reason) }`
abbrev pub err_if : {E : Type 0} → Bool → E → Result E (Unit {0})
err_if b reason = if b then err reason else ok tt

pub bind-ok :
    {E A B : Type 0} (first : Result E A) (next : A → Result E B) (b : B)
    → (first >>= next) ≡ ok b
    → (a : A) × (first ≡ ok a) × (next a ≡ ok b)
bind-ok (ok a) next b e = (a, refl, e)
bind-ok (err reason) next b e = cc

-- What the chain's success says of its first step.
pub err_if-ok :
    {E A : Type 0} (b : Bool) (reason : E) (next : Result E A) (a : A)
    → (err_if b reason >> next) ≡ ok a
    → (b ≡ false) × (next ≡ ok a)
err_if-ok true reason next a e = cc
err_if-ok false reason next a e = (refl, e)

pub ok_or-ok :
    {E A B : Type 0} (o : Option A) (reason : E) (next : A → Result E B) (b : B)
    → (ok_or o reason >>= next) ≡ ok b
    → (a : A) × (o ≡ some a) × (next a ≡ ok b)
ok_or-ok (some a) reason next b e = (a, refl, e)
ok_or-ok none reason next b e = cc

abbrev pub map_err : {E F A : Type 0} → (E → F) → Result E A → Result F A
map_err f (err reason) = err (f reason)
map_err f (ok value) = ok value

pub ok-injective : {E A : Type 0} (a b : A) → ◌≡◌ {A = Result E A} (ok a) (ok b) → a ≡ b
ok-injective a b e = cc

pub map_err-ok :
    {E F A : Type 0} (f : E → F) (r : Result E A) (a : A) → map_err f r ≡ ok a → r ≡ ok a
map_err-ok f (err reason) a e = cc
map_err-ok f (ok value) a e = cc

-- To split on a result and keep the equation.
pub result_cases :
    {E A : Type 0} (r : Result E A) → ((reason : E) × (r ≡ err reason)) ⊎ ((a : A) × (r ≡ ok a))
result_cases (err reason) = inl (reason, refl)
result_cases (ok a) = inr (a, refl)
