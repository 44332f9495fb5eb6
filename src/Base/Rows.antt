-- ===== src/Base/Rows.antt =====
-- A table is the list of its rows. `find`, `select`, `update`, `remove` and `any` are what `select`,
-- `update … set`, `delete` and `exists` with a `where` clause do to such a list.
use Prim.Native.Nat.{ℕ, zero, suc, ◌≤◌}
use mathlib.Core.Path.{◌≡◌, refl}
use mathlib.Core.Logic.{inl, inr}
use mathlib.Core.Bool.{Bool, true, false, ◌&&◌, ◌||◌}
use mathlib.Core.Option
use mathlib.Core.Option.{Option, none, some}
use mathlib.Core.List.{List, [], ◌∷◌, map}
use native.Mathlib.Omega.{arith}
use odyshell.Base.Tests.{if◌then◌else◌, Bool-cases}
use odyshell.Base.Lists.{length, All}

module _ {ℓ} {A : Type ℓ} where
  -- The first row that the test admits.
  unfoldable pub find : (A → Bool) → List A → Option A
  find p [] = none
  find p (x ∷ xs) = if p x then some x else find p xs

  unfoldable pub select : (A → Bool) → List A → List A
  select p [] = []
  select p (x ∷ xs) = let rest = select p xs in if p x then x ∷ rest else rest

  unfoldable pub update : (A → Bool) → (A → A) → List A → List A
  update p f [] = []
  update p f (x ∷ xs) = (if p x then f x else x) ∷ update p f xs

  unfoldable pub remove : (A → Bool) → List A → List A
  remove p [] = []
  remove p (x ∷ xs) = let rest = remove p xs in if p x then rest else x ∷ rest

  unfoldable pub any : (A → Bool) → List A → Bool
  any p [] = false
  any p (x ∷ xs) = p x || any p xs

  -- The rows that `update … returning` gives back, and the first of them.
  abbrev pub returning : (A → Bool) → (A → A) → List A → List A
  returning p f xs = map f (select p xs)

  abbrev pub returning_first : (A → Bool) → (A → A) → List A → Option A
  returning_first p f xs = Option.map f (find p xs)

  insert_by : (A → A → Bool) → A → List A → List A
  insert_by before x [] = x ∷ []
  insert_by before x (y ∷ ys) =
      let later = insert_by before x ys in if before y x then y ∷ later else x ∷ y ∷ ys

  -- `order by`: rows that the order does not tell apart keep no promised order.
  unfoldable pub order_by : (A → A → Bool) → List A → List A
  unfolding insert_by
  order_by before [] = []
  order_by before (x ∷ xs) = insert_by before x (order_by before xs)

  unfoldable pub limit : ℕ → List A → List A
  limit zero xs = []
  limit (suc n) [] = []
  limit (suc n) (x ∷ xs) = x ∷ limit n xs

  -- What `find` returns passes the test.
  pub find-test : (p : A → Bool) (xs : List A) (x : A) → find p xs ≡ some x → p x ≡ true
  unfolding find
  find-test p [] x e = cc
  find-test p (y ∷ xs) x e = ground (arith, find-test p xs x)

  -- A narrower test that the row passes finds a row too.
  pub find-and :
      (p q : A → Bool) (xs : List A) (x : A)
      → find p xs ≡ some x
      → q x ≡ true
      → (y : A) × (find (λ r. p r && q r) xs ≡ some y)
  unfolding find
  find-and p q [] x e h = cc
  find-and p q (y ∷ ys) x e h = elim (Bool-cases (p y)) [
    | inl here ↦ (y, ground arith)
    | inr there ↦ let (z, at_z) = find-and p q ys x (rw (there, find) at e) h in (z, ground arith)
  ]

  -- Where no row passes the test an update changes nothing.
  pub update_none : (p : A → Bool) (f : A → A) (xs : List A) → any p xs ≡ false → update p f xs ≡ xs
  unfolding update any
  update_none p f [] e = refl
  update_none p f (x ∷ xs) e = ground (arith, update_none p f xs)

  pub find-any : (p : A → Bool) (xs : List A) → find p xs ≡ none → any p xs ≡ false
  unfolding find any
  find-any p [] e = refl
  find-any p (x ∷ xs) e = ground (arith, find-any p xs)

  pub any-find : (p : A → Bool) (xs : List A) → any p xs ≡ false → find p xs ≡ none
  unfolding find any
  any-find p [] e = refl
  any-find p (x ∷ xs) e = ground (arith, any-find p xs)

module _ {ℓ κ} {A : Type ℓ} (P : A → Type κ) where
  pub All-find : (p : A → Bool) (xs : List A) (x : A) → All P xs → find p xs ≡ some x → P x
  unfolding find
  All-find p [] x h e = cc
  All-find p (y ∷ xs) x h e = ground (arith, All-find p xs x h.1)

  pub All-select : (p : A → Bool) (xs : List A) → All P xs → All P (select p xs)
  unfolding select
  All-select p [] h = tt
  All-select p (x ∷ xs) h = ground (arith, All-select p xs h.1)

  pub All-remove : (p : A → Bool) (xs : List A) → All P xs → All P (remove p xs)
  unfolding remove
  All-remove p [] h = tt
  All-remove p (x ∷ xs) h = ground (arith, All-remove p xs h.1)

  pub All-map {μ} : {Q : A → Type μ} (xs : List A) → ((x : A) → Q x → P x) → All Q xs → All P xs
  All-map [] f h = tt
  All-map (x ∷ xs) f h = (f x h.0, All-map xs f h.1)

  -- An update keeps what each changed row keeps.
  pub All-update :
      (p : A → Bool) (f : A → A) (xs : List A)
      → ((x : A) → p x ≡ true → P x → P (f x))
      → All P xs
      → All P (update p f xs)
  unfolding update
  All-update p f [] k h = tt
  All-update p f (x ∷ xs) k h = ground (arith, k x, All-update p f xs k h.1)

-- Where the row that a test picks out of `xs` stands in `ys`, and how it changed.
module _ {ℓ κ} {A : Type ℓ} (R : A → A → Type κ) (q : A → Bool) where
  abbrev pub Follows : List A → List A → Type (ℓ ⊔ κ)
  Follows xs ys = (x : A) → find q xs ≡ some x → (y : A) × (find q ys ≡ some y) × R x y

  pub Follows-refl : ((x : A) → R x x) → (xs : List A) → Follows xs xs
  Follows-refl same xs x e = (x, e, same x)

  pub Follows-trans :
      ((x y z : A) → R x y → R y z → R x z)
      → (xs ys zs : List A) → Follows xs ys
      → Follows ys zs
      → Follows xs zs
  Follows-trans trans xs ys zs f g x e =
      let (y, at_y, r) = f x e in let (z, at_z, s) = g y at_y in (z, at_z, trans x y z r s)

  -- A row put in front hides no other.
  pub Follows-cons :
      (x : A) (xs : List A)
      → ((x : A) → R x x)
      → (q x ≡ true → find q xs ≡ none)
      → Follows xs (x ∷ xs)
  unfolding find
  Follows-cons x xs same fresh y e = (y, ground arith, same y)

  -- Only what becomes of the row that the test picks out is to be shown.
  pub Follows-update :
      (p : A → Bool) (f : A → A) (xs : List A)
      → ((x : A) → R x x)
      → ((x : A) → q (f x) ≡ q x)
      → ((x : A) → find q xs ≡ some x → p x ≡ true → R x (f x))
      → Follows xs (update p f xs)
  unfolding find update
  Follows-update p f [] same keeps moves x e = cc
  Follows-update p f (y ∷ ys) same keeps moves x e = elim (Bool-cases (q y)) [
    | inl here ↦ (
      (if p y then f y else y),
      ground (arith, keeps y),
      (let at_head : y ≡ x = ground arith in rw (← at_head) (changed (rw (here, find)))),
    )
    | inr there ↦
        let (z, at_z, r) =
          Follows-update p f ys same keeps (λ a at_a. moves a (rw (there, find) at_a)) x
            (rw (there, find) at e) in
        (z, ground (arith, keeps y), r)
  ]
    where
      changed : find q (y ∷ ys) ≡ some y → R y (if p y then f y else y)
      changed at_y = ground (arith, same y, moves y at_y)

-- An update under which no row comes to pass a test lets no more rows pass it.
module _ {ℓ} {A : Type ℓ} where
  pub length-update : (p : A → Bool) (f : A → A) (xs : List A) → length (update p f xs) ≡ length xs
  unfolding update
  length-update p f [] = refl
  length-update p f (x ∷ xs) = omega (arith, length-update p f xs)

  pub length-remove : (p : A → Bool) (xs : List A) → length (remove p xs) ≤ length xs
  unfolding remove
  length-remove p [] = omega arith
  length-remove p (x ∷ xs) = ground (arith, length-remove p xs)

  pub length-select-update :
      (p q : A → Bool) (f : A → A) (xs : List A)
      → All (λ x. q x ≡ true → p (f x) ≡ true → p x ≡ true) xs
      → length (select p (update q f xs)) ≤ length (select p xs)
  unfolding select update
  length-select-update p q f [] keeps = omega arith
  length-select-update p q f (x ∷ xs) keeps =
      let (here, rest) = keeps in ground (arith, here, length-select-update p q f xs rest)
