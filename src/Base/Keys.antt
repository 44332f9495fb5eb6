-- ===== src/Base/Keys.antt =====
-- Tables with a primary key.
use mathlib.Core.Path.{◌≡◌, refl, sym}
use Prim.Native.String.{String}
use mathlib.Core.Logic.{inl, inr, ◌≢◌}
use mathlib.Core.Bool.{Bool, true, false}
use mathlib.Core.Option.{some}
use mathlib.Core.List.{List, [], ◌∷◌, map}
use native.Mathlib.Omega.{arith}
use odyshell.Base.Tests.{if◌then◌else◌, ◌==◌, Bool-cases}
use odyshell.Base.Lists.{All}
use odyshell.Base.Rows.{find, update, remove, any, update_none, All-map}

-- No two rows have the same key.
module _ {ℓ} {A : Type ℓ} (key : A → String) where
  abbrev pub has_key : String → A → Bool
  has_key i x = key x == i

  abbrev pub HasUniqueKeys : List A → Type 0
  HasUniqueKeys [] = Unit
  HasUniqueKeys (x ∷ xs) = (any (has_key (key x)) xs ≡ false) × HasUniqueKeys xs

  pub any-update :
      (p : A → Bool) (f : A → A) (i : String) (xs : List A)
      → ((x : A) → key (f x) ≡ key x)
      → any (has_key i) (update p f xs) ≡ any (has_key i) xs
  unfolding any update
  any-update p f i [] same = refl
  any-update p f i (x ∷ xs) same = ground (arith, same x, any-update p f i xs same)

  pub update-HasUniqueKeys :
      (p : A → Bool) (f : A → A) (xs : List A)
      → ((x : A) → key (f x) ≡ key x)
      → HasUniqueKeys xs
      → HasUniqueKeys (update p f xs)
  unfolding update
  update-HasUniqueKeys p f [] same h = tt
  update-HasUniqueKeys p f (x ∷ xs) same h = (
    elim (Bool-cases (p x)) [
      | inl e ↦ rw (e, same x, any-update p f (key x) xs same) h.0
      | inr e ↦ rw (e, any-update p f (key x) xs same) h.0
    ],
    update-HasUniqueKeys p f xs same h.1,
  )

  pub any-map :
      (f : A → A) (i : String) (xs : List A)
      → ((x : A) → key (f x) ≡ key x)
      → any (has_key i) (map f xs) ≡ any (has_key i) xs
  unfolding any
  any-map f i [] same = refl
  any-map f i (x ∷ xs) same = ground (arith, same x, any-map f i xs same)

  pub any-remove :
      (p : A → Bool) (i : String) (xs : List A)
      → any (has_key i) xs ≡ false
      → any (has_key i) (remove p xs) ≡ false
  unfolding any remove
  any-remove p i [] h = refl
  any-remove p i (x ∷ xs) h = ground (arith, any-remove p i xs)

  pub remove-HasUniqueKeys :
      (p : A → Bool) (xs : List A) → HasUniqueKeys xs → HasUniqueKeys (remove p xs)
  unfolding remove
  remove-HasUniqueKeys p [] h = tt
  remove-HasUniqueKeys p (x ∷ xs) h = elim (Bool-cases (p x)) [
    | inl e ↦ rw (e, remove) (remove-HasUniqueKeys p xs h.1)
    | inr e ↦ rw (e, remove) ((any-remove p (key x) xs h.0), remove-HasUniqueKeys p xs h.1)
  ]

  pub not-any-find :
      (i : String) (q : A → Bool) (xs : List A) (x : A)
      → any (has_key i) xs ≡ false
      → find q xs ≡ some x
      → key x ≢ i
  unfolding any find
  not-any-find i q [] x h e = cc
  not-any-find i q (y ∷ ys) x h e = ground (arith, not-any-find i q ys x)

  -- Two searches that end at rows of one key end at one row.
  pub find_unique :
      (p q : A → Bool) (xs : List A) (x y : A)
      → HasUniqueKeys xs
      → find p xs ≡ some x
      → find q xs ≡ some y
      → key x ≡ key y
      → x ≡ y
  unfolding find
  find_unique p q [] x y h e d same = cc
  find_unique p q (z ∷ zs) x y h e d same = ground (
    arith,
    find_unique p q zs x y h.1,
    not-any-find (key z) p zs x h.0,
    not-any-find (key z) q zs y h.0,
  )

  reaches_none :
      (i : String) (p : A → Bool) (xs : List A)
      → ((x : A) → p x ≡ true → key x ≡ i)
      → any (has_key i) xs ≡ false
      → any p xs ≡ false
  unfolding any
  reaches_none i p [] reaches h = refl
  reaches_none i p (x ∷ xs) reaches h = ground (arith, reaches x, reaches_none i p xs reaches)

  -- Under unique keys an update that only reaches the key of a row found changes that row alone.
  pub All-update_one {κ} :
      (P : A → Type κ) (p q : A → Bool) (f : A → A) (xs : List A) (c : A)
      → HasUniqueKeys xs
      → find q xs ≡ some c
      → ((x : A) → p x ≡ true → key x ≡ key c)
      → P (f c)
      → All P xs
      → All P (update p f xs)
  unfolding find update
  All-update_one P p q f [] c unique e reaches changed h = tt
  All-update_one P p q f (x ∷ xs) c unique e reaches changed h = elim (Bool-cases (q x)) [
    | inl here ↦
        let same : x ≡ c = ground arith in
        let rest : update p f xs ≡ xs =
          update_none p f xs (reaches_none (key c) p xs reaches (rw (← same) unique.0)) in
        (rw same (head p f c changed (rw (← same) h.0)), rw rest h.1)
    | inr there ↦
        let below : find q xs ≡ some c = rw (there, find) at e in
        let apart : key c ≢ key x = not-any-find (key x) q xs c unique.0 below in
        (
          (rw (not_reached x p (λ k. apart (sym (reaches x k)))) h.0),
          All-update_one P p q f xs c unique.1 below reaches changed h.1,
        )
  ]
    where
      head : (p : A → Bool) (f : A → A) (c : A) → P (f c) → P c → P (if p c then f c else c)
      head p f c h k = ground arith

      not_reached : (x : A) (p : A → Bool) → (p x ≢ true) → p x ≡ false
      not_reached x p h = ground arith

  pub All-not-any :
      (i : String) (xs : List A) → any (has_key i) xs ≡ false → All (λ x. key x ≢ i) xs
  unfolding any
  All-not-any i [] h = tt
  All-not-any i (x ∷ xs) h = (ground arith, All-not-any i xs (ground arith))

  -- Under unique keys a row with the key of a row found is that row.
  pub All-find_unique :
      (q : A → Bool) (xs : List A) (c : A)
      → HasUniqueKeys xs
      → find q xs ≡ some c
      → All (λ x. key x ≡ key c → x ≡ c) xs
  unfolding find
  All-find_unique q [] c unique e = tt
  All-find_unique q (x ∷ xs) c unique e = elim (Bool-cases (q x)) [
    | inl here ↦
        let same : x ≡ c = ground arith in
        (
          (λ k. same),
          All-map (λ y. key y ≡ key c → y ≡ c) xs (λ y apart k. elim (apart k) [ ])
              (All-not-any (key c) xs (rw (← same) unique.0)),
        )
    | inr there ↦
        let below : find q xs ≡ some c = rw (there, find) at e in
        let apart : key c ≢ key x = not-any-find (key x) q xs c unique.0 below in
        ((λ k. elim (apart (sym k)) [ ]), All-find_unique q xs c unique.1 below)
  ]
