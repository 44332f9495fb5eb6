-- ===== src/Base/Tests.antt =====
-- Tests on numbers and on texts as Booleans, the conditional, and case rules for computed values.
use Prim.Native.Nat.{ℕ, compare, Ordering}
use Prim.Native.String.{String, compare as text_compare}
use mathlib.Core.Path.{◌≡◌, refl}
use mathlib.Core.Logic.{◌↔◌, ◌⊎◌, inl, inr}
use mathlib.Core.Bool.{Bool, true, false}
use mathlib.Core.Option.{Option, none, some}
use native.Mathlib.Omega.{arith}
use text.Mathlib.Text.{◌==◌ as str_eq}
use text.Mathlib.TextEquality.{eq_iff}

abbrev pub ltb : ℕ → ℕ → Bool
ltb a b = elim (compare a b) [ Ordering.lt ↦ true | _ ↦ false ]

abbrev pub leb : ℕ → ℕ → Bool
leb a b = elim (compare a b) [ Ordering.gt ↦ false | _ ↦ true ]

abbrev pub eqb : ℕ → ℕ → Bool
eqb a b = elim (compare a b) [ Ordering.eq ↦ true | _ ↦ false ]

infix 1 if◌then◌else◌
abbrev pub if◌then◌else◌ {ℓ} : {A : Type ℓ} → Bool → A → A → A
if true then x else y = x
if false then x else y = y

dec_of_test : {A : Type 0} (b : Bool) → ((b ≡ true) ↔ A) → Dec A
dec_of_test true h = yes (h.0 refl)
dec_of_test false h = no (λ a. cc (h.1 a))

-- Equality of texts as a decision, so that a test on two texts gives its branches the equation.
unfoldable pub string_discrete : Discrete String
unfolding dec_of_test
string_discrete s t = dec_of_test (str_eq s t) (eq_iff s t)

infix 50 ◌==◌
abbrev pub ◌==◌ : String → String → Bool
s == t = elim (string_discrete s t) [ yes _ ↦ true | no _ ↦ false ]

pub ==_refl : (s : String) → (s == s) ≡ true
==_refl s = ground arith

pub Bool-cases : (b : Bool) → (b ≡ true) ⊎ (b ≡ false)
Bool-cases true = inl refl
Bool-cases false = inr refl

pub Option-cases {ℓ} : {A : Type ℓ} (o : Option A) → (o ≡ none) ⊎ ((a : A) × (o ≡ some a))
Option-cases none = inl refl
Option-cases (some a) = inr (a, refl)

abbrev pub is_some {ℓ} : {A : Type ℓ} → Option A → Bool
is_some none = false
is_some (some _) = true

-- Texts in the order of their code points, which for UUIDs is the database's order.
abbrev pub text_before : String → String → Bool
text_before s t = elim (text_compare s t) [ Ordering.lt ↦ true | _ ↦ false ]
