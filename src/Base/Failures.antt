-- ===== src/Base/Failures.antt =====
-- The outcome of code that may fail: a value, or the reason why no value is reached.
use mathlib.Core.Path.{◌≡◌, refl, ap, subst, ◌∙◌}
use mathlib.Core.Bool.{Bool, true, false}
use my_power_mirror.Base.Tests.{if◌then◌else◌}
use mathlib.Core.Logic.{◌≢◌, ◌⊎◌, inl, inr}

-- `undefined_behavior`: an access outside an array, through NULL or to an unset value.
-- `out_of_range`: the exception of that name. `out_of_fuel`: the model's bound on a loop.
pub data Failure : Type 0 where
  undefined_behavior out_of_range out_of_fuel : Failure

pub data Outcome {ℓ} (A : Type ℓ) : Type ℓ where
  ok : A → Outcome A
  fail : Failure → Outcome A

infixl 5 ◌>>=◌
abbrev pub ◌>>=◌ {ℓ κ} : {A : Type ℓ} {B : Type κ} → Outcome A → (A → Outcome B) → Outcome B
ok a >>= f = f a
fail e >>= f = fail e

-- A chain that gives a value has one for its first step.
pub >>=-eq-ok {ℓ κ} :
    {A : Type ℓ} {B : Type κ} (step : Outcome A) (next : A → Outcome B) {last : B}
    → (step >>= next) ≡ ok last
    → (first : A) × (step ≡ ok first) × (next first ≡ ok last)
>>=-eq-ok (fail reason) next h = cc
>>=-eq-ok (ok first) next h = (first, refl, h)

pub ok_injective {ℓ} : {A : Type ℓ} {a b : A} → ok a ≡ ok b → a ≡ b
ok_injective e = cc

pub fail_injective {ℓ} :
    {A : Type ℓ} {d e : Failure} → ◌≡◌ {A = Outcome A} (fail d) (fail e) → d ≡ e
fail_injective p = cc

-- A chain does not fail for a reason that none of its steps has.
pub >>=-ne-fail {ℓ κ} :
    {A : Type ℓ} {B : Type κ} (e : Failure) (m : Outcome A) (f : A → Outcome B)
    → m ≢ fail e
    → ((a : A) → f a ≢ fail e)
    → (m >>= f) ≢ fail e
>>=-ne-fail e (ok a) f h k = k a
>>=-ne-fail e (fail d) f h k = λ p. h (ap fail (fail_injective p))

pub fail≢ok {ℓ} : {A : Type ℓ} {e : Failure} {a : A} → fail e ≢ ok a
fail≢ok p = cc

pub Outcome-cases {ℓ} :
    {A : Type ℓ} (m : Outcome A) → ((a : A) × (m ≡ ok a)) ⊎ ((e : Failure) × (m ≡ fail e))
Outcome-cases (ok a) = inl (a, refl)
Outcome-cases (fail e) = inr (e, refl)

-- What holds of the value, if there is one.
pub data Ensures {ℓ κ} {A : Type ℓ} (P : A → Type κ) : Outcome A → Type (ℓ ⊔ κ) where
  gives : {a : A} → P a → Ensures P (ok a)
  fails : {e : Failure} → Ensures P (fail e)

pub Ensures-bind {ℓ κ μ ν} :
    {A : Type ℓ} {B : Type κ} {P : A → Type μ} {Q : B → Type ν} {m : Outcome A} {f : A → Outcome B}
    → Ensures P m
    → ((a : A) → P a → Ensures Q (f a))
    → Ensures Q (m >>= f)
Ensures-bind (gives p) k = k _ p
Ensures-bind fails k = fails

pub Ensures-any {ℓ κ ν} :
    {A : Type ℓ} {B : Type κ} {Q : B → Type ν} (m : Outcome A) {f : A → Outcome B}
    → ((a : A) → m ≡ ok a → Ensures Q (f a))
    → Ensures Q (m >>= f)
Ensures-any (ok a) k = k a refl
Ensures-any (fail e) k = fails

pub Ensures-ok {ℓ κ} :
    {A : Type ℓ} {P : A → Type κ} {m : Outcome A} {a : A} → Ensures P m → m ≡ ok a → P a
Ensures-ok {P} (gives p) e = subst P (ok_injective e) p
Ensures-ok fails e = absurd (cc e)

pub Ensures-if {ℓ κ} :
    {A : Type ℓ} {P : A → Type κ} (b : Bool) {x y : Outcome A}
    → (b ≡ true → Ensures P x)
    → (b ≡ false → Ensures P y)
    → Ensures P (if b then x else y)
Ensures-if true h k = h refl
Ensures-if false h k = k refl

pub Ensures-map {ℓ κ μ} :
    {A : Type ℓ} {P : A → Type κ} {Q : A → Type μ} {m : Outcome A}
    → ((a : A) → P a → Q a)
    → Ensures P m
    → Ensures Q m
Ensures-map k (gives p) = gives (k _ p)
Ensures-map k fails = fails

-- A chain in which each step gives a value or is undefined behaviour, and the last is.
pub bind-undefined {ℓ κ} :
    {A : Type ℓ} {B : Type κ} {m : Outcome A} {f : A → Outcome B}
    → (m ≡ fail undefined_behavior) ⊎ ((a : A) × (m ≡ ok a))
    → ((a : A) → m ≡ ok a → f a ≡ fail undefined_behavior)
    → (m >>= f) ≡ fail undefined_behavior
bind-undefined {f} (inl e) k = ap (λ m. m >>= f) e
bind-undefined {f} (inr (a, e)) k = ap (λ m. m >>= f) e ∙ k a e

pub bind_assoc {ℓ κ μ} :
    {A : Type ℓ} {B : Type κ} {C : Type μ} (m : Outcome A) (f : A → Outcome B) (g : B → Outcome C)
    → (m >>= λ a. f a >>= g) ≡ (m >>= f >>= g)
bind_assoc (ok a) f g = refl
bind_assoc (fail e) f g = refl
