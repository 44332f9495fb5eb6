-- ===== src/Server/Control/Rate/Holes.antt =====
-- apps/server/src/control.ts: the heap of expirations while one entry of it is a hole, which
-- `addExpiration` moves up and `removeNextExpiration` moves down.
use odyshell.Base.{ℕ, ◌+◌, ◌*◌, ◌≤◌, ◌<◌, ◌≡◌, ◌≢◌, ◌⊎◌, Bool, List, arith, length}
use odyshell.Base.Arrays
use odyshell.Base.Arrays.{count}
use odyshell.Server.Control.Rate.{Expiration, expiration_inhabited, parent}

abbrev pub time : List Expiration → ℕ → ℕ
time a i = (Arrays.get! a i).resets_at

-- No expiration is due before the one above it.
abbrev pub IsHeap : List Expiration → Type 0
IsHeap a = (c : ℕ) → 0 < c → c < length a → time a (parent c) ≤ time a c

-- Both arrays have the same entries, each as often.
abbrev pub HasSameEntries : List Expiration → List Expiration → Type 0
HasSameEntries a b = (p : Expiration → Bool) → count p a ≡ count p b

-- The edges that do not touch the hole are in order, and so are those across it.
pub record HasHole (a : List Expiration) (i : ℕ) : Type 0 where
  pub inside : i < length a
  pub edges : (c : ℕ) → 0 < c → c < length a → c ≢ i → parent c ≢ i → time a (parent c) ≤ time a c
  pub bridged : (c : ℕ) → 0 < c → c < length a → parent c ≡ i → 0 < i → time a (parent i) ≤ time a c

-- The entry is not due after those below the hole.
abbrev pub IsBelow : List Expiration → ℕ → ℕ → Type 0
IsBelow a i t = (c : ℕ) → 0 < c → c < length a → parent c ≡ i → t ≤ time a c

-- The entry that was put in the hole is in order.
pub fill_IsHeap :
    (a : List Expiration) (i : ℕ) (e : Expiration)
    → HasHole a i
    → IsBelow a i e.resets_at
    → (0 < i → time a (parent i) ≤ e.resets_at)
    → IsHeap (Arrays.set a i e)
fill_IsHeap a i e h below above c pos inside =
    let size = Arrays.length-set a i e in
    let here = Arrays.get!-set a i c e h.inside in
    let over = Arrays.get!-set a i (parent c) e h.inside in
    ground (arith, here, over, size, h.edges c, below c, above)

-- The hole moves up.
pub lift_HasHole :
    (a : List Expiration) (i : ℕ)
    → HasHole a i
    → 0 < i
    → HasHole (Arrays.set a i (Arrays.get! a (parent i))) (parent i)
lift_HasHole a i h pos =
    let v = Arrays.get! a (parent i) in
    let size = Arrays.length-set a i v in
    record {
      inside = rw size (let there = h.inside in omega arith);
      edges = λ c p q r s.
          let q' : c < length a = rw size at q in
          let here = Arrays.get!-set a i c v h.inside in
          let over = Arrays.get!-set a i (parent c) v h.inside in
          ground (arith, here, over, h.edges c, h.bridged c);
      bridged = λ c p q r s.
          let q' : c < length a = rw size at q in
          let here = Arrays.get!-set a i c v h.inside in
          let over = Arrays.get!-set a i (parent (parent i)) v h.inside in
          let up = h.edges (parent i) s in ground (arith, here, over, h.edges c, up);
    }

-- What is not due after the entry that came down is not due after the others below the new hole.
pub lift_IsBelow :
    (a : List Expiration) (i t : ℕ)
    → HasHole a i
    → 0 < i
    → t < time a (parent i)
    → IsBelow (Arrays.set a i (Arrays.get! a (parent i))) (parent i) t
lift_IsBelow a i t h pos less c p q r =
    let v = Arrays.get! a (parent i) in
    let q' : c < length a = rw (Arrays.length-set a i v) at q in
    let here = Arrays.get!-set a i c v h.inside in ground (arith, here, h.edges c)

-- `m` is the child of `i` that is due first.
pub record IsSmallerChild (a : List Expiration) (i m : ℕ) : Type 0 where
  pub inside : m < length a
  pub child : (m ≡ i * 2 + 1) ⊎ (m ≡ i * 2 + 2)
  pub least : (c : ℕ) → 0 < c → c < length a → parent c ≡ i → time a m ≤ time a c

-- The hole moves down.
pub sink_HasHole :
    (a : List Expiration) (i m : ℕ)
    → HasHole a i
    → IsSmallerChild a i m
    → HasHole (Arrays.set a i (Arrays.get! a m)) m
sink_HasHole a i m h s =
    let v = Arrays.get! a m in
    let size = Arrays.length-set a i v in
    let of_child = s.child in
    record {
      inside = rw size s.inside;
      edges = λ c p q r o.
          let q' : c < length a = rw size at q in
          let here = Arrays.get!-set a i c v h.inside in
          let over = Arrays.get!-set a i (parent c) v h.inside in
          let up = h.bridged m in ground (arith, here, over, h.edges c, s.least c, up);
      bridged = λ c p q r o.
          let q' : c < length a = rw size at q in
          let here = Arrays.get!-set a i c v h.inside in
          let over = Arrays.get!-set a i (parent m) v h.inside in
          ground (arith, here, over, h.edges c);
    }

-- A write to the next hole of what the last one was to hold leaves the same entries.
pub moved_HasSameEntries :
    (a : List Expiration) (i j : ℕ) (e : Expiration)
    → i < length a
    → j < length a
    → j ≢ i
    → HasSameEntries (Arrays.set (Arrays.set a i (Arrays.get! a j)) j e) (Arrays.set a i e)
moved_HasSameEntries a i j e hi hj apart p =
    let v = Arrays.get! a j in
    let size = Arrays.length-set a i v in
    let second = Arrays.count-set p (Arrays.set a i v) j e (rw size hj) in
    let first = Arrays.count-set p a i v hi in
    let whole = Arrays.count-set p a i e hi in
    let kept : Arrays.get! (Arrays.set a i v) j ≡ v = ground (arith, Arrays.get!-set a i j v hi) in
    let second' = rw kept at second in omega arith
