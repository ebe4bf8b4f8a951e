-- ===== src/Common/Errors.antt =====
-- Go's pairs of a value and an `error`: the value, or the error's text.
use mathlib.Core.Path.{◌≡◌, refl, sym, subst}
use mathlib.Core.Logic.{◌⊎◌, inl, inr}
use fabric8_jenkins_idler.Common.Text.{String}

-- an `error` that is not nil, by its text
abbrev pub GoError : Type 0
GoError = String

pub data Result {ℓ} (A : Type ℓ) : Type ℓ where
  ok : A → Result A
  err : GoError → Result A

infixl 5 ◌>>=◌
abbrev pub ◌>>=◌ {ℓ κ} : {A : Type ℓ} {B : Type κ} → Result A → (A → Result B) → Result B
ok a >>= f = f a
err e >>= f = err e

-- the error of a call is returned under another text, as `errors.Wrapf` does
abbrev pub wrap_error {ℓ} : {A : Type ℓ} → (GoError → GoError) → Result A → Result A
wrap_error w (ok a) = ok a
wrap_error w (err e) = err (w e)

pub Result-cases {ℓ} :
    {A : Type ℓ} (r : Result A) → ((a : A) × (r ≡ ok a)) ⊎ ((e : GoError) × (r ≡ err e))
Result-cases (ok a) = inl (a, refl)
Result-cases (err e) = inr (e, refl)

-- a call that returns a pair, or panics
pub data Attempt {ℓ} (A : Type ℓ) : Type ℓ where
  gives : Result A → Attempt A
  crashes : GoError → Attempt A

-- what the run time says of a nil pointer that is read
abbrev pub nil_dereference : GoError
nil_dereference = "runtime error: invalid memory address or nil pointer dereference"

pub Attempt-cases {ℓ} :
    {A : Type ℓ} (r : Attempt A)
    → ((a : A) × (r ≡ gives (ok a)))
      ⊎ ((e : GoError) × (r ≡ gives (err e)))
      ⊎ ((e : GoError) × (r ≡ crashes e))
Attempt-cases (gives (ok a)) = inl (a, refl)
Attempt-cases (gives (err e)) = inr (inl (e, refl))
Attempt-cases (crashes e) = inr (inr (e, refl))

-- the property holds of the value, and there is a value
abbrev pub OnOk : {A : Type 0} → Result A → (A → Type 0) → Type 0
OnOk (ok a) p = p a
OnOk (err e) p = ⊥

pub OnOk-mono :
    {A : Type 0} {P Q : A → Type 0} (x y : Result A)
    → ((a : A) → x ≡ ok a → y ≡ ok a)
    → ((a : A) → P a → Q a)
    → OnOk x P
    → OnOk y Q
OnOk-mono {Q = Q} (ok a) y same f h = subst (λ z. OnOk z Q) (sym (same a refl)) (f a h)
OnOk-mono (err e) y same f h = absurd h

abbrev pub IsError : {A : Type 0} → Result A → Type 0
IsError (ok a) = ⊥
IsError (err e) = Unit
