-- ===== src/Base/Chars.antt =====
-- A text as the list of its code units, for code that takes texts apart. Meant to be used qualified.
use Prim.Native.Nat.{ℕ, zero, suc}
use mathlib.Core.Path.{◌≡◌, refl, ap}
use mathlib.Core.Logic.{◌≢◌}
use mathlib.Core.Bool.{Bool, true, false, ◌&&◌}
use mathlib.Core.List.{List, [], ◌∷◌, ◌++◌}
use native.Mathlib.Omega.{arith}
use odyshell.Base.Tests.{eqb, if◌then◌else◌}
use odyshell.Base.Lists.{length, All}

unfoldable pub equals : List ℕ → List ℕ → Bool
equals [] [] = true
equals (x ∷ xs) (y ∷ ys) = eqb x y && equals xs ys
equals xs ys = false

pub equals_eq : (xs ys : List ℕ) → equals xs ys ≡ true → xs ≡ ys
unfolding equals
equals_eq [] [] h = refl
equals_eq [] (y ∷ ys) h = cc
equals_eq (x ∷ xs) [] h = cc
equals_eq (x ∷ xs) (y ∷ ys) h =
    let rest = equals_eq xs ys (ground arith) in
    let here : x ≡ y = ground arith in rw (here, rest) refl

pub equals_refl : (xs : List ℕ) → equals xs xs ≡ true
unfolding equals
equals_refl [] = refl
equals_refl (x ∷ xs) = ground (arith, equals_refl xs)

-- `startsWith`
unfoldable pub starts_with : List ℕ → List ℕ → Bool
starts_with [] xs = true
starts_with (p ∷ ps) [] = false
starts_with (p ∷ ps) (x ∷ xs) = eqb p x && starts_with ps xs

-- `slice` from an index to the end
unfoldable pub drop : ℕ → List ℕ → List ℕ
drop zero xs = xs
drop (suc n) [] = []
drop (suc n) (x ∷ xs) = drop n xs

pub starts_with-drop : (ps xs : List ℕ) → starts_with ps xs ≡ true → xs ≡ ps ++ drop (length ps) xs
unfolding starts_with drop
starts_with-drop [] xs h = refl
starts_with-drop (p ∷ ps) [] h = cc
starts_with-drop (p ∷ ps) (x ∷ xs) h =
    let rest = starts_with-drop ps xs (ground arith) in
    let here : x ≡ p = ground arith in rw here (ap (◌∷◌ p) rest)

pub starts_with-append : (ps xs : List ℕ) → starts_with ps (ps ++ xs) ≡ true
unfolding starts_with
starts_with-append [] xs = refl
starts_with-append (p ∷ ps) xs = ground (arith, starts_with-append ps xs)

pub drop-append : (ps xs : List ℕ) → drop (length ps) (ps ++ xs) ≡ xs
unfolding drop
drop-append [] xs = refl
drop-append (p ∷ ps) xs = drop-append ps xs

abbrev pub grow : ℕ → List (List ℕ) → List (List ℕ)
grow x [] = (x ∷ []) ∷ []
grow x (part ∷ parts) = (x ∷ part) ∷ parts

-- `split` at a separator of one code unit
unfoldable pub split : ℕ → List ℕ → List (List ℕ)
split d [] = [] ∷ []
split d (x ∷ xs) = let parts = split d xs in if eqb x d then [] ∷ parts else grow x parts

abbrev pub join : ℕ → List (List ℕ) → List ℕ
join d [] = []
join d (part ∷ []) = part
join d (part ∷ parts) = part ++ d ∷ join d parts

split-some : (d : ℕ) (xs : List ℕ) → split d xs ≢ []
unfolding split
split-some d [] = λ e. cc
split-some d (x ∷ xs) = go (split d xs)
  where
    go : (parts : List (List ℕ)) → (if eqb x d then [] ∷ parts else grow x parts) ≢ []
    go [] e = ground arith
    go (part ∷ parts) e = ground arith

-- Joined again, the parts are the text.
pub join-split : (d : ℕ) (xs : List ℕ) → join d (split d xs) ≡ xs
unfolding split
join-split d [] = refl
join-split d (x ∷ xs) = go (split d xs) (join-split d xs) (split-some d xs)
  where
    go :
        (parts : List (List ℕ))
        → join d parts ≡ xs
        → parts ≢ []
        → join d (if eqb x d then [] ∷ parts else grow x parts) ≡ x ∷ xs
    go [] same some_part = elim (some_part refl) [ ]
    go (part ∷ []) same some_part = ground arith
    go (part ∷ q ∷ parts) same some_part = ground arith

pub split-part : (d : ℕ) (xs : List ℕ) → All (λ x. x ≢ d) xs → split d xs ≡ xs ∷ []
unfolding split
split-part d [] h = refl
split-part d (x ∷ xs) h = ground (arith, split-part d xs h.1)

pub split-append :
    (d : ℕ) (xs ys : List ℕ) → All (λ x. x ≢ d) xs → split d (xs ++ d ∷ ys) ≡ xs ∷ split d ys
unfolding split
split-append d [] ys h = ground arith
split-append d (x ∷ xs) ys h = ground (arith, split-append d xs ys h.1)
