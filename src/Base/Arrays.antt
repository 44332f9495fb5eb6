-- ===== src/Base/Arrays.antt =====
-- The reads and writes of an array at native indices, on lists, and how often a list has an entry.
-- The names are used with the module before them.
use Prim.Native.Nat.{ℕ, zero, suc, ◌+◌, ◌≤◌, ◌<◌}
use mathlib.Core.Path.{◌≡◌, refl, ap}
use mathlib.Core.Logic.{inl, inr}
use mathlib.Core.Bool.{Bool, true}
use mathlib.Core.Option.{Option, none, some}
use mathlib.Core.List.{List, [], ◌∷◌, ◌++◌}
use native.Mathlib.Omega.{arith}
use odyshell.Base.Tests.{if◌then◌else◌, eqb, Bool-cases}
use odyshell.Base.Lists.{length}

-- What a read past the end stands for.
pub record Inhabited {ℓ} (A : Type ℓ) : Type ℓ where
  pub default : A

module _ {ℓ} {A : Type ℓ} where
  abbrev pub get_elem? : List A → ℕ → Option A
  get_elem? [] n = none
  get_elem? (e ∷ es) zero = some e
  get_elem? (e ∷ es) (suc n) = get_elem? es n

  -- The first entries of a list, as `pop` leaves them.
  abbrev pub take : ℕ → List A → List A
  take n [] = []
  take zero (e ∷ es) = []
  take (suc n) (e ∷ es) = e ∷ take n es

  abbrev pub set : List A → ℕ → A → List A
  set [] n new = []
  set (e ∷ es) zero new = new ∷ es
  set (e ∷ es) (suc n) new = e ∷ set es n new

  -- How many members pass a test.
  unfoldable pub count : (A → Bool) → List A → ℕ
  count p [] = 0
  count p (e ∷ es) = (if p e then 1 else 0) + count p es

  pub length-count : (es : List A) → count (λ e. true) es ≡ length es
  unfolding count
  length-count [] = refl
  length-count (e ∷ es) = omega (arith, length-count es)

  pub count-append : (p : A → Bool) (es fs : List A) → count p (es ++ fs) ≡ count p es + count p fs
  unfolding count
  count-append p [] fs = omega arith
  count-append p (e ∷ es) fs = omega (arith, count-append p es fs)

  pub get_elem?-none : (es : List A) (n : ℕ) → length es ≤ n → get_elem? es n ≡ none
  get_elem?-none [] n past = refl
  get_elem?-none (e ∷ es) zero past = absurd (omega arith)
  get_elem?-none (e ∷ es) (suc n) past = get_elem?-none es n (omega arith)

  pub length-take : (n : ℕ) (es : List A) → length es ≡ suc n → length (take n es) ≡ n
  length-take n [] size = absurd (omega arith)
  length-take zero (e ∷ es) size = refl
  length-take (suc n) (e ∷ es) size = let shorter = length-take n es (omega arith) in omega arith

  pub length-set : (es : List A) (n : ℕ) (new : A) → length (set es n new) ≡ length es
  length-set [] n new = refl
  length-set (e ∷ es) zero new = refl
  length-set (e ∷ es) (suc n) new = let same = length-set es n new in omega arith

  -- The entry at a place depends on the places before the end alone.
  get_elem?-append :
      (es fs : List A) (n : ℕ) → n < length es → get_elem? (es ++ fs) n ≡ get_elem? es n
  get_elem?-append [] fs n inside = absurd (omega arith)
  get_elem?-append (e ∷ es) fs zero inside = refl
  get_elem?-append (e ∷ es) fs (suc n) inside = get_elem?-append es fs n (omega arith)

  get_elem?-take : (k : ℕ) (es : List A) (n : ℕ) → n < k → get_elem? (take k es) n ≡ get_elem? es n
  get_elem?-take k [] n before = refl
  get_elem?-take zero (e ∷ es) n before = absurd (omega arith)
  get_elem?-take (suc k) (e ∷ es) zero before = refl
  get_elem?-take (suc k) (e ∷ es) (suc n) before = get_elem?-take k es n (omega arith)

  get_elem?-set :
      (es : List A) (n m : ℕ) (new : A)
      → n < length es
      → get_elem? (set es n new) m ≡ (if eqb n m then some new else get_elem? es m)
  get_elem?-set [] n m new inside = absurd (omega arith)
  get_elem?-set (e ∷ es) zero zero new inside = refl
  get_elem?-set (e ∷ es) zero (suc m) new inside = ground arith
  get_elem?-set (e ∷ es) (suc n) zero new inside = ground arith
  get_elem?-set (e ∷ es) (suc n) (suc m) new inside =
      let below = get_elem?-set es n m new (omega arith) in ground arith

module _ {ℓ} {A : Type ℓ} ⦃inhabited : Inhabited A⦄ where
  abbrev or_default : Option A → A
  or_default none = inhabited.default
  or_default (some e) = e

  unfoldable pub get! : List A → ℕ → A
  get! es n = or_default (get_elem? es n)

  pub get_elem?-get! : (es : List A) (n : ℕ) → n < length es → get_elem? es n ≡ some (get! es n)
  unfolding get!
  get_elem?-get! [] n inside = absurd (omega arith)
  get_elem?-get! (e ∷ es) zero inside = refl
  get_elem?-get! (e ∷ es) (suc n) inside = get_elem?-get! es n (omega arith)

  module _ (es : List A) (n : ℕ) where
    pub get!-append : (fs : List A) → n < length es → get! (es ++ fs) n ≡ get! es n
    unfolding get!
    get!-append fs inside = ap or_default (get_elem?-append es fs n inside)

    pub get!-take : (k : ℕ) → n < k → get! (take k es) n ≡ get! es n
    unfolding get!
    get!-take k before = ap or_default (get_elem?-take k es n before)

    pub get!-set :
        (m : ℕ) (new : A)
        → n < length es
        → get! (set es n new) m ≡ (if eqb n m then new else get! es m)
    unfolding get!
    get!-set m new inside = elim (Bool-cases (eqb n m)) [
      | inl here ↦ let written = get_elem?-set es n m new inside in rw (written, here) refl
      | inr there ↦ let written = get_elem?-set es n m new inside in rw (written, there) refl
    ]

  -- A write trades the old entry for the new one.
  pub count-set :
      (p : A → Bool) (es : List A) (n : ℕ) (new : A)
      → n < length es
      → count p (set es n new) + (if p (get! es n) then 1 else 0)
        ≡ count p es + (if p new then 1 else 0)
  unfolding count get!
  count-set p [] n new inside = absurd (omega arith)
  count-set p (e ∷ es) zero new inside = omega arith
  count-set p (e ∷ es) (suc n) new inside =
      let below = count-set p es n new (omega arith) in omega arith

  -- Without its last entry.
  pub count-take :
      (p : A → Bool) (n : ℕ) (es : List A)
      → length es ≡ suc n
      → count p (take n es) + (if p (get! es n) then 1 else 0) ≡ count p es
  unfolding count get!
  count-take p n [] size = absurd (omega arith)
  count-take p zero (e ∷ []) size = omega arith
  count-take p zero (e ∷ f ∷ es) size = absurd (omega arith)
  count-take p (suc n) (e ∷ es) size = let below = count-take p n es (omega arith) in omega arith
