-- ===== src/Base/Ending.antt =====
-- What code gives, or a failure that is none of the model's own.
use mathlib.Core.Path.{◌≡◌, refl, ap}
use mathlib.Core.Bool.{Bool, true, false}
use mathlib.Core.Logic.{◌≢◌}
use my_power_mirror.Base.Tests.{if◌then◌else◌}
use my_power_mirror.Base.Failures.{
  fail_injective, Failure, undefined_behavior, out_of_range, out_of_fuel, Outcome, ok, fail, ◌>>=◌,
  Ensures, gives, fails, Ensures-ok,
}

pub data Ends {ℓ κ} {A : Type ℓ} (P : A → Type κ) : Outcome A → Type (ℓ ⊔ κ) where
  returns : {a : A} → P a → Ends P (ok a)
  breaks : {e : Failure} → e ≢ out_of_fuel → Ends P (fail e)

-- What a call gives, with nothing said of it.
abbrev pub Some : {A : Type 0} → A → Type 0
Some a = Unit

-- The two failures of the code.
pub undefined {ℓ κ} : {A : Type ℓ} {P : A → Type κ} → Ends P (fail undefined_behavior)
undefined = breaks λ e. cc e

pub thrown {ℓ κ} : {A : Type ℓ} {P : A → Type κ} → Ends P (fail out_of_range)
thrown = breaks λ e. cc e

pub Ends-bind {ℓ κ μ ν} :
    {A : Type ℓ} {B : Type κ} {P : A → Type μ} {Q : B → Type ν} {m : Outcome A} {f : A → Outcome B}
    → Ends P m
    → ((a : A) → P a → Ends Q (f a))
    → Ends Q (m >>= f)
Ends-bind (returns p) k = k _ p
Ends-bind (breaks ne) k = breaks ne

-- Two calls in a row, then what follows.
pub Ends-bind_two {ℓ κ μ ν ξ} :
    {A : Type ℓ} {B : Type κ} {C : Type μ} {P : B → Type ν} {Q : C → Type ξ} (m : Outcome A)
    (f : A → Outcome B) {g : B → Outcome C}
    → Ends P (m >>= f)
    → ((b : B) → P b → Ends Q (g b))
    → Ends Q (m >>= λ a. f a >>= g)
Ends-bind_two (ok a) f e k = Ends-bind e k
Ends-bind_two (fail e) f (breaks ne) k = breaks ne

pub Ends-if {ℓ κ} :
    {A : Type ℓ} {P : A → Type κ} (b : Bool) {x y : Outcome A}
    → (b ≡ true → Ends P x)
    → (b ≡ false → Ends P y)
    → Ends P (if b then x else y)
Ends-if true h k = h refl
Ends-if false h k = k refl

pub Ends-map {ℓ κ μ} :
    {A : Type ℓ} {P : A → Type κ} {Q : A → Type μ} {m : Outcome A}
    → ((a : A) → P a → Q a)
    → Ends P m
    → Ends Q m
Ends-map k (returns p) = returns (k _ p)
Ends-map k (breaks ne) = breaks ne

pub Ends-ne {ℓ κ} : {A : Type ℓ} {P : A → Type κ} {m : Outcome A} → Ends P m → m ≢ fail out_of_fuel
Ends-ne (returns p) e = cc e
Ends-ne {A} (breaks ne) e = ne (fail_injective e)

pub Ends-Ensures {ℓ κ} : {A : Type ℓ} {P : A → Type κ} {m : Outcome A} → Ends P m → Ensures P m
Ends-Ensures (returns p) = gives p
Ends-Ensures (breaks ne) = fails

-- What ends, and of whose results more is known.
pub Ends-strong {ℓ κ μ} :
    {A : Type ℓ} {P : A → Type κ} {Q : A → Type μ} {m : Outcome A}
    → Ends P m
    → Ensures Q m
    → Ends Q m
Ends-strong (returns p) e = returns (Ensures-ok e refl)
Ends-strong (breaks ne) e = breaks ne

-- What is not out of fuel ends.
pub ne-Ends {ℓ} : {A : Type ℓ} (m : Outcome A) → m ≢ fail out_of_fuel → Ends (λ _. Unit {0}) m
ne-Ends (ok a) ne = returns tt
ne-Ends (fail e) ne = breaks λ same. ne (ap fail same)
