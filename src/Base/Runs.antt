-- ===== src/Base/Runs.antt =====
-- How a call that loops or reads an array ends, and the rules for calls that end well.
use mathlib.Core.Path.{◌≡◌, refl}
use mathlib.Core.Bool.{Bool, true, false}
use mathlib.Core.Option.{Option, none, some}
use odyshell.Base.Tests.{if◌then◌else◌}

-- A returned value, a `TypeError`, or the model's fuel running out.
pub data Run {ℓ} (A : Type ℓ) : Type ℓ where
  ok : A → Run A
  type_error out_of_fuel : Run A

infixl 5 ◌>>=◌
abbrev pub ◌>>=◌ {ℓ κ} : {A : Type ℓ} {B : Type κ} → Run A → (A → Run B) → Run B
ok a >>= f = f a
type_error >>= f = type_error
out_of_fuel >>= f = out_of_fuel

abbrev pub or_type_error {ℓ} : {A : Type ℓ} → Option A → Run A
or_type_error (some a) = ok a
or_type_error none = type_error

-- The call returns, and what it returns satisfies `P`.
pub data Returns {ℓ κ} {A : Type ℓ} (P : A → Type κ) : Run A → Type (ℓ ⊔ κ) where
  returns : {value : A} → P value → Returns P (ok value)

-- A test returns what both of its branches return.
pub Returns-if {ℓ κ} :
    {A : Type ℓ} {P : A → Type κ} {yes_run no_run : Run A} (test : Bool)
    → (test ≡ true → Returns P yes_run)
    → (test ≡ false → Returns P no_run)
    → Returns P (if test then yes_run else no_run)
Returns-if true on_true on_false = on_true refl
Returns-if false on_true on_false = on_false refl

-- A call that goes on with the value of another returns if both do.
pub Returns-bind {ℓ κ μ ν} :
    {A : Type ℓ} {P : A → Type κ} {B : Type μ} {Q : B → Type ν} {first : Run A} {rest : A → Run B}
    → Returns P first
    → ((value : A) → P value → Returns Q (rest value))
    → Returns Q (first >>= rest)
Returns-bind (returns h) go_on = go_on _ h

-- What is returned satisfies whatever follows.
pub Returns-map {ℓ κ μ} :
    {A : Type ℓ} {P : A → Type κ} {Q : A → Type μ} {run : Run A}
    → Returns P run
    → ((value : A) → P value → Q value)
    → Returns Q run
Returns-map (returns h) follows = returns (follows _ h)
