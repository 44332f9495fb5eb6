-- ===== src/Server/Control/Concurrency/Bounds.antt =====
-- apps/server/src/control.ts: how many connections `ScopedConcurrencyLimiter` lets live at once.
use odyshell.Base.{
  ℕ, ◌+◌, ◌≤◌, ◌<◌, ◌≡◌, ◌≢◌, ◌↔◌, ◌∙◌, inl, inr, true, ◌||◌, List, String, leb, any, arith,
  Bool-cases, string_discrete,
}
use odyshell.Server.Control.Concurrency.{
  Count, ConcurrencyLimiter, count_of, counts_key, set_count, decrement_or_delete, user_key,
  acquire, release, set_same, set_other, decrement_same, decrement_other, count_of-any,
}

-- No Organization and no user has more than its limit.
pub record IsBounded (l : ConcurrencyLimiter) : Type 0 where
  pub for_organization : (k : String) → count_of l.organizations k ≤ l.organization_limit
  pub for_user : (k : String) → count_of l.users k ≤ l.user_limit

set_bounded :
    (k : String) (n limit : ℕ) (counts : List Count)
    → n ≤ limit
    → ((j : String) → count_of counts j ≤ limit)
    → (j : String) → count_of (set_count k n counts) j ≤ limit
set_bounded k n limit counts room h j = elim (string_discrete j k) [
  | yes same ↦ rw (same, set_same k n counts) room
  | no other ↦ rw (set_other k j n counts other) (h j)
]

decrement_bounded :
    (k : String) (limit : ℕ) (counts : List Count)
    → ((j : String) → count_of counts j ≤ limit)
    → (j : String) → count_of (decrement_or_delete k counts) j ≤ limit
decrement_bounded k limit counts h j = elim (string_discrete j k) [
  | yes same ↦ let now = h k in rw (same, decrement_same k counts) (omega arith)
  | no other ↦ rw (decrement_other k j counts other) (h j)
]

-- The number of connections that may still be opened.
abbrev pub HasRoom : String → String → ConcurrencyLimiter → Type 0
HasRoom o u l =
    (count_of l.organizations o < l.organization_limit)
    × (count_of l.users (user_key o u) < l.user_limit)

-- `acquire` answers true exactly when both the Organization and its user are below their limits.
pub acquire-eq-true :
    (o u : String) (l : ConcurrencyLimiter) → ((acquire o u l).1 ≡ true) ↔ HasRoom o u l
unfolding acquire
acquire-eq-true o u l = ground arith

pub acquire-IsBounded :
    (o u : String) (l : ConcurrencyLimiter) → IsBounded l → IsBounded (acquire o u l).0
unfolding acquire
acquire-IsBounded o u l h =
    let full =
      leb l.organization_limit (count_of l.organizations o)
      || leb l.user_limit (count_of l.users (user_key o u)) in
    elim (Bool-cases full) [
      | inl e ↦ rw (e, acquire) h
      | inr e ↦
          rw (e, acquire)
            (record {
              for_organization =
                  set_bounded o (count_of l.organizations o + 1) l.organization_limit
                    l.organizations (ground arith) h.for_organization;
              for_user =
                  set_bounded (user_key o u) (count_of l.users (user_key o u) + 1) l.user_limit
                    l.users (ground arith) h.for_user;
            })
    ]

pub release-IsBounded :
    (o u : String) (l : ConcurrencyLimiter) → IsBounded l → IsBounded (release o u l)
unfolding release
release-IsBounded o u l h = elim (Bool-cases (any (counts_key (user_key o u)) l.users)) [
  | inl e ↦
      rw (e, release)
        (record {
          for_organization =
              decrement_bounded o l.organization_limit l.organizations h.for_organization;
          for_user = decrement_bounded (user_key o u) l.user_limit l.users h.for_user;
        })
  | inr e ↦ rw (e, release) h
]

back :
    (k j : String) (counts : List Count)
    → count_of (decrement_or_delete k (set_count k (count_of counts k + 1) counts)) j
      ≡ count_of counts j
back k j counts =
    let more = set_count k (count_of counts k + 1) counts in
    elim (string_discrete j k) [
      | yes same ↦
          rw (same, decrement_same k more, set_same k (count_of counts k + 1) counts) (omega arith)
      | no other ↦
          decrement_other k j more other ∙ set_other k j (count_of counts k + 1) counts other
    ]

abbrev pub taken : String → String → ConcurrencyLimiter → ConcurrencyLimiter
taken o u l = record l {
  organizations = set_count o (count_of l.organizations o + 1) l.organizations;
  users = set_count (user_key o u) (count_of l.users (user_key o u) + 1) l.users;
}

pub acquire-taken :
    (o u : String) (l : ConcurrencyLimiter)
    → (acquire o u l).1 ≡ true
    → (acquire o u l).0 ≡ taken o u l
unfolding acquire
acquire-taken o u l h = ground arith

-- The user is counted after that.
counted :
    (k : String) (n : ℕ) (counts : List Count)
    → any (counts_key k) (set_count k (n + 1) counts) ≡ true
counted k n counts = elim (Bool-cases (any (counts_key k) (set_count k (n + 1) counts))) [
  | inl held ↦ held
  | inr none_held ↦
      let zero_there = count_of-any k (set_count k (n + 1) counts) none_held in
      let more = set_same k (n + 1) counts in
      elim (absurd (count_of (set_count k (n + 1) counts) k) n zero_there more) [ ]
]
  where
    absurd : (c m : ℕ) → c ≡ 0 → c ≢ m + 1
    absurd c m e f = omega arith

release-taken :
    (o u : String) (l : ConcurrencyLimiter)
    → let later = release o u (taken o u l) in
      ((k : String) → count_of later.organizations k ≡ count_of l.organizations k)
      × ((k : String) → count_of later.users k ≡ count_of l.users k)
unfolding release
release-taken o u l =
    rw (counted (user_key o u) (count_of l.users (user_key o u)) l.users, release)
      ((λ k. back o k l.organizations), (λ k. back (user_key o u) k l.users))

-- A connection that was let in gives back, when it closes, just what it took: every Organization and
-- every user has the count that it had before.
pub release-acquire :
    (o u : String) (l : ConcurrencyLimiter)
    → (acquire o u l).1 ≡ true
    → let later = release o u (acquire o u l).0 in
      ((k : String) → count_of later.organizations k ≡ count_of l.organizations k)
      × ((k : String) → count_of later.users k ≡ count_of l.users k)
release-acquire o u l h = rw (acquire-taken o u l h) (release-taken o u l)
