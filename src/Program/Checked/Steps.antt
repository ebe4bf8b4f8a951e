-- ===== src/Program/Checked/Steps.antt =====
-- A chain of steps of main that goes on has gone on at each step.
use fabric8_jenkins_idler.Common.{Result, ok, err, Attempt, gives, crashes, ◌≡◌, refl, ap, arith}
use fabric8_jenkins_idler.Program.Startup.{Startup, goes_on, stops, ◌>>=◌, or_fatal, or_panic}

pub or_fatal_goes_on {ℓ} : {A : Type ℓ} (r : Result A) (a : A) → or_fatal r ≡ goes_on a → r ≡ ok a
or_fatal_goes_on (ok b) a h = ground arith
or_fatal_goes_on (err e) a h = cc

pub or_panic_goes_on {ℓ} :
    {A : Type ℓ} (r : Attempt A) (a : A) → or_panic r ≡ goes_on a → r ≡ gives (ok a)
or_panic_goes_on (gives r) a h = ap gives (or_fatal_goes_on r a h)
or_panic_goes_on (crashes e) a h = cc

pub goes_on-injective : {A : Type 0} {a b : A} → goes_on a ≡ goes_on b → a ≡ b
goes_on-injective {a = a} {b = b} e = cc

pub bind_goes_on :
    {A B : Type 0} (x : Startup A) (f : A → Startup B) (b : B)
    → (x >>= f) ≡ goes_on b
    → (a : A) × (x ≡ goes_on a) × (f a ≡ goes_on b)
bind_goes_on (goes_on a) f b h = (a, refl, h)
bind_goes_on (stops e) f b h = cc
