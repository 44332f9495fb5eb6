-- ===== src/Server/Control/Rate/Sifting.antt =====
-- apps/server/src/control.ts: `addExpiration` and `removeNextExpiration` keep the heap, and their loops
-- end.
use odyshell.Base.{
  ℕ, zero, suc, ◌+◌, ◌-◌, ◌*◌, ◌≤◌, ◌<◌, ◌≡◌, ◌≢◌, ◌∙◌, refl, ap, Bool, Option, some, List, [], ◌∷◌,
  ◌++◌, arith, if◌then◌else◌, ltb, leb, length, length-append,
}
use odyshell.Base.Arrays
use odyshell.Base.Arrays.{count, count-append}
use odyshell.Base.Runs.{ok, Run, Returns, returns, Returns-bind, Returns-map, Returns-if}
use odyshell.Server.Control.Rate.{
  Expiration, expiration_inhabited, parent, load, sift_up, sift_down, smaller_child, add_expiration,
  removed, remove_next_expiration,
}
use odyshell.Server.Control.Rate.Holes.{
  time, IsHeap, HasSameEntries, HasHole, IsBelow, IsSmallerChild, fill_IsHeap, lift_HasHole,
  lift_IsBelow, sink_HasHole, moved_HasSameEntries,
}

abbrev pub Filled : List Expiration → ℕ → Expiration → List Expiration → Type 0
Filled a i e b = IsHeap b × HasSameEntries b (Arrays.set a i e)

load-ok : (a : List Expiration) (i : ℕ) → i < length a → load a i ≡ ok (Arrays.get! a i)
unfolding load
load-ok a i h = rw (Arrays.get_elem?-get! a i h)

fill-Filled :
    (a : List Expiration) (i : ℕ) (e : Expiration)
    → HasHole a i
    → IsBelow a i e.resets_at
    → (0 < i → time a (parent i) ≤ e.resets_at)
    → Returns (Filled a i e) (ok (Arrays.set a i e))
fill-Filled a i e h below above = returns (fill_IsHeap a i e h below above, λ p. refl)

moved-Filled :
    (a : List Expiration) (i j : ℕ) (e : Expiration) (r : Run (List Expiration))
    → i < length a
    → j < length a
    → j ≢ i
    → Returns (Filled (Arrays.set a i (Arrays.get! a j)) j e) r
    → Returns (Filled a i e) r
moved-Filled a i j e r hi hj apart run =
    Returns-map run λ b f. (f.0, λ p. f.1 p ∙ moved_HasSameEntries a i j e hi hj apart p)

pub sift_up-Filled :
    (k : ℕ) (a : List Expiration) (i : ℕ) (e : Expiration)
    → i < k
    → HasHole a i
    → IsBelow a i e.resets_at
    → Returns (Filled a i e) (sift_up k a i e)
unfolding sift_up
sift_up-Filled zero a i e f h below = absurd (omega arith)
sift_up-Filled (suc k) a i e f h below =
    let inside = h.inside in
    let over : parent i < length a = omega arith in
    rw (load-ok a (parent i) over) (
      Returns-if (ltb 0 i)
        (λ pos.
          Returns-if (leb (time a (parent i)) e.resets_at)
            (λ settled. fill-Filled a i e h below (λ p. ground arith))
            (λ rises.
              let p : 0 < i = ground arith in
              let b = Arrays.set a i (Arrays.get! a (parent i)) in
              moved-Filled a i (parent i) e (sift_up k b (parent i) e) inside over (omega arith) (
                sift_up-Filled k b (parent i) e (omega arith) (lift_HasHole a i h p)
                  (lift_IsBelow a i e.resets_at h p (ground arith)))))
        (λ root. fill-Filled a i e h below (λ p. ground arith)))

smaller_child-IsSmallerChild :
    (a : List Expiration) (i : ℕ)
    → i * 2 + 1 < length a
    → Returns (IsSmallerChild a i) (smaller_child a i)
unfolding smaller_child
smaller_child-IsSmallerChild a i h =
    grind (arith, load-ok a (i * 2 + 1 + 1), load-ok a (i * 2 + 1), returns)

pub sift_down-Filled :
    (k : ℕ) (a : List Expiration) (i : ℕ) (last : Expiration)
    → length a - i < k
    → HasHole a i
    → (0 < i → time a (parent i) ≤ last.resets_at)
    → Returns (Filled a i last) (sift_down k a i last)
unfolding sift_down
sift_down-Filled zero a i last f h above = absurd (omega arith)
sift_down-Filled (suc k) a i last f h above =
    let inside = h.inside in
    Returns-if (leb (length a) (i * 2 + 1))
      (λ leaf. fill-Filled a i last h (λ c p q r. absurd (ground arith)) above)
      (λ inner. Returns-bind (smaller_child-IsSmallerChild a i (ground arith)) λ m s.
        let within = s.inside in
        let of_child = s.child in
        rw (load-ok a m within) (
          Returns-if (leb last.resets_at (time a m))
            (λ settled. fill-Filled a i last h (λ c p q r. ground (arith, s.least c)) above)
            (λ sinks.
              let b = Arrays.set a i (Arrays.get! a m) in
              let up : parent m ≡ i = omega arith in
              let here = Arrays.get!-set a i (parent m) (Arrays.get! a m) inside in
              moved-Filled a i m last (sift_down k b m last) inside within (omega arith) (
                sift_down-Filled k b m last (omega (arith, Arrays.length-set a i (Arrays.get! a m)))
                  (sink_HasHole a i m h s) (λ p. ground arith)))))

abbrev pub one_if : (Expiration → Bool) → Expiration → ℕ
one_if p e = if p e then 1 else 0

-- A heap of the entries of `a` and `e`.
abbrev pub Added : Expiration → List Expiration → List Expiration → Type 0
Added e a b = IsHeap b × ((p : Expiration → Bool) → count p b ≡ count p a + one_if p e)

last_HasHole : (a : List Expiration) (e : Expiration) → IsHeap a → HasHole (a ++ e ∷ []) (length a)
last_HasHole a e h =
    let size = length-append a (e ∷ []) in
    record {
      inside = omega arith;
      edges = λ c p q r s.
          let here = Arrays.get!-append a c (e ∷ []) (omega arith) in
          let over = Arrays.get!-append a (parent c) (e ∷ []) (omega arith) in
          ground (arith, here, over, h c);
      bridged = λ c p q r s. absurd (omega arith);
    }

get!-length : (a : List Expiration) (e : Expiration) → Arrays.get! (a ++ e ∷ []) (length a) ≡ e
unfolding Arrays.get!
get!-length [] e = refl
get!-length (x ∷ a) e = get!-length a e

pub add_expiration-Added :
    (a : List Expiration) (e : Expiration) → IsHeap a → Returns (Added e a) (add_expiration e a)
unfolding add_expiration count
add_expiration-Added a e h =
    let size = length-append a (e ∷ []) in
    let last = get!-length a e in
    let whole = a ++ e ∷ [] in
    Returns-map
      (sift_up-Filled (length a + 1) whole (length a) e (omega arith) (last_HasHole a e h)
        (λ c p q r. absurd (omega arith)))
      λ b f. (
        f.0,
        λ p.
            let one = count-append p a (e ∷ []) in
            let written = rw last at (Arrays.count-set p whole (length a) e (omega arith)) in
            let same = f.1 p in omega arith,
      )

-- The root of a heap, and a heap of the other entries.
abbrev pub Removed : List Expiration → Option Expiration × List Expiration → Type 0
Removed a (o, rest) =
    (o ≡ some (Arrays.get! a 0))
    × IsHeap rest
    × ((p : Expiration → Bool) → count p a ≡ count p rest + one_if p (Arrays.get! a 0))

root_HasHole :
    (n : ℕ) (a : List Expiration)
    → IsHeap a
    → length a ≡ suc n
    → 0 < n
    → HasHole (Arrays.take n a) 0
root_HasHole n a h size more =
    let shorter = Arrays.length-take n a size in
    record {
      inside = omega arith;
      edges = λ c p q r s.
          let here = Arrays.get!-take a c n (omega arith) in
          let over = Arrays.get!-take a (parent c) n (omega arith) in
          ground (arith, here, over, h c);
      bridged = λ c p q r s. absurd (omega arith);
    }

removed-Removed :
    (n : ℕ) (a rest : List Expiration)
    → IsHeap a
    → length a ≡ suc n
    → rest ≡ Arrays.take n a
    → Returns (Removed a) (removed (some (Arrays.get! a 0)) (some (Arrays.get! a n)) rest)
unfolding count
removed-Removed n a [] h size e =
    let shorter = Arrays.length-take n a size in
    let none_left : length {A = Expiration} [] ≡ length (Arrays.take n a) = ap length e in
    let single : n ≡ 0 = omega arith in
    returns (
      refl,
      (λ c p q. absurd (omega arith)),
      λ p. let one = rw (← e, single) at (Arrays.count-take p n a size) in omega arith,
    )
removed-Removed n a (x ∷ xs) h size e =
    let shorter = Arrays.length-take n a size in
    let same : length (x ∷ xs) ≡ length (Arrays.take n a) = ap length e in
    let hole = rw (← e) at (root_HasHole n a h size (omega arith)) in
    Returns-bind
      (sift_down-Filled (length (x ∷ xs) + 1) (x ∷ xs) 0 (Arrays.get! a n) (omega arith) hole
        (λ p. absurd (omega arith)))
      λ b f. returns (
        refl,
        f.0,
        λ p.
            let first = rw (← e) at (Arrays.get!-take a 0 n (omega arith)) in
            let all = rw (← e) at (Arrays.count-take p n a size) in
            let written =
              rw first at (Arrays.count-set p (x ∷ xs) 0 (Arrays.get! a n) (omega arith)) in
            let kept = f.1 p in omega arith,
      )

pub remove_next_expiration-Removed :
    (a : List Expiration) → IsHeap a → 0 < length a → Returns (Removed a) (remove_next_expiration a)
unfolding remove_next_expiration
remove_next_expiration-Removed a h some_left =
    let n = length a - 1 in
    rw (Arrays.get_elem?-get! a 0 some_left, Arrays.get_elem?-get! a n (omega arith))
      (removed-Removed n a (Arrays.take n a) h (omega arith) refl)

-- Going up from any place leads to the root, past entries that are due no later.
pub root_least : (a : List Expiration) (i : ℕ) → IsHeap a → i < length a → time a 0 ≤ time a i
root_least a i heap inside = climb (length a) i inside inside
  where
    climb : (steps j : ℕ) → j < steps → j < length a → time a 0 ≤ time a j
    climb zero j few within = absurd (omega arith)
    climb (suc steps) zero few within = omega arith
    climb (suc steps) (suc j) few within =
        let over = climb steps (parent (suc j)) (omega arith) (omega arith) in
        let edge = heap (suc j) (omega arith) within in omega arith
