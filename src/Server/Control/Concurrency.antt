-- ===== src/Server/Control/Concurrency.antt =====
-- apps/server/src/control.ts: the class `ScopedConcurrencyLimiter`. A `Map` of counts is the list of its
-- entries.
pub mod Bounds
pub mod Connections
use Prim.Native.String.{◌++◌ as str_append}
use odyshell.Base.{
  ℕ, suc, ◌+◌, ◌-◌, ◌≤◌, ◌<◌, ◌≡◌, ◌≢◌, ◌↔◌, refl, inl, inr, Bool, true, false, not, ◌&&◌, ◌||◌,
  Option, none, some, List, [], ◌∷◌, String, ◌==◌, if◌then◌else◌, leb, eqb, is_some, find, update,
  remove, any, arith, All, All-update, All-remove, Bool-cases, Option-cases, find-any, update_none,
}

pub record Count : Type 0 where
  pub key : String
  pub count : ℕ

abbrev pub counts_key : String → Count → Bool
counts_key k c = c.key == k

abbrev found_count : Option Count → ℕ
found_count none = 0
found_count (some c) = c.count

unfoldable pub count_of : List Count → String → ℕ
count_of counts k = found_count (find (counts_key k) counts)

-- `Map.set`
unfoldable pub set_count : String → ℕ → List Count → List Count
set_count k n counts =
    if any (counts_key k) counts
    then update (counts_key k) (λ c. record c { count = n }) counts
    else record { key = k; count = n } ∷ counts

unfoldable pub decrement_or_delete : String → List Count → List Count
decrement_or_delete k counts =
    if eqb (count_of counts k) 0
    then counts
    else if eqb (count_of counts k) 1
    then remove (counts_key k) counts
    else set_count k (count_of counts k - 1) counts

pub record ConcurrencyLimiter : Type 0 where
  pub organization_limit : ℕ
  pub user_limit : ℕ
  pub organizations : List Count
  pub users : List Count

abbrev pub user_key : String → String → String
user_key organization_id user_id = str_append organization_id (str_append ":" user_id)

unfoldable pub acquire : String → String → ConcurrencyLimiter → ConcurrencyLimiter × Bool
acquire organization_id user_id l =
    let key = user_key organization_id user_id in
    let organization_count = count_of l.organizations organization_id in
    let user_count = count_of l.users key in
    if leb l.organization_limit organization_count || leb l.user_limit user_count
    then (l, false)
    else (
      record l {
        organizations = set_count organization_id (organization_count + 1) l.organizations;
        users = set_count key (user_count + 1) l.users;
      },
      true,
    )

unfoldable pub release : String → String → ConcurrencyLimiter → ConcurrencyLimiter
release organization_id user_id l =
    let key = user_key organization_id user_id in
    if not (any (counts_key key) l.users) then l else record l {
      users = decrement_or_delete key l.users;
      organizations = decrement_or_delete organization_id l.organizations;
    }

unfoldable pub active_for_organization : String → ConcurrencyLimiter → ℕ
active_for_organization organization_id l = count_of l.organizations organization_id

-- What a step does to the count of its key, and that it leaves the other keys alone.
update_other :
    (k j : String) (n : ℕ) (counts : List Count)
    → j ≢ k
    → count_of (update (counts_key k) (λ c. record c { count = n }) counts) j ≡ count_of counts j
unfolding count_of find update
update_other k j n [] other = refl
update_other k j n (c ∷ cs) other = ground (arith, update_other k j n cs other)

update_same :
    (k : String) (n : ℕ) (counts : List Count)
    → any (counts_key k) counts ≡ true
    → count_of (update (counts_key k) (λ c. record c { count = n }) counts) k ≡ n
unfolding count_of find update any
update_same k n [] h = cc
update_same k n (c ∷ cs) h = ground (arith, update_same k n cs)

remove_other :
    (k j : String) (counts : List Count)
    → j ≢ k
    → count_of (remove (counts_key k) counts) j ≡ count_of counts j
unfolding count_of find remove
remove_other k j [] other = refl
remove_other k j (c ∷ cs) other = ground (arith, remove_other k j cs other)

remove_same : (k : String) (counts : List Count) → count_of (remove (counts_key k) counts) k ≡ 0
unfolding count_of find remove
remove_same k [] = refl
remove_same k (c ∷ cs) = ground (arith, remove_same k cs)

pub set_same : (k : String) (n : ℕ) (counts : List Count) → count_of (set_count k n counts) k ≡ n
unfolding set_count count_of find
set_same k n counts = elim (Bool-cases (any (counts_key k) counts)) [
  | inl held ↦ rw (held, set_count) (update_same k n counts held)
  | inr fresh ↦ rw (fresh, set_count) (ground arith)
]

pub set_other :
    (k j : String) (n : ℕ) (counts : List Count)
    → j ≢ k
    → count_of (set_count k n counts) j ≡ count_of counts j
unfolding set_count count_of find
set_other k j n counts other = elim (Bool-cases (any (counts_key k) counts)) [
  | inl held ↦ rw (held, set_count) (update_other k j n counts other)
  | inr fresh ↦ rw (fresh, set_count) (ground arith)
]

pub decrement_same :
    (k : String) (counts : List Count)
    → count_of (decrement_or_delete k counts) k ≡ count_of counts k - 1
unfolding decrement_or_delete
decrement_same k counts =
    let one = remove_same k counts in
    let more = set_same k (count_of counts k - 1) counts in ground arith

pub decrement_other :
    (k j : String) (counts : List Count)
    → j ≢ k
    → count_of (decrement_or_delete k counts) j ≡ count_of counts j
unfolding decrement_or_delete
decrement_other k j counts other =
    let one = remove_other k j counts other in
    let more = set_other k j (count_of counts k - 1) counts other in ground arith

pub count_of-any :
    (k : String) (counts : List Count) → any (counts_key k) counts ≡ false → count_of counts k ≡ 0
unfolding count_of any find
count_of-any k [] h = refl
count_of-any k (c ∷ cs) h = ground (arith, count_of-any k cs)
