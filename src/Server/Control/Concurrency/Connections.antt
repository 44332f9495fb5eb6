-- ===== src/Server/Control/Concurrency/Connections.antt =====
-- apps/server/src/control.ts: the connections that `ScopedConcurrencyLimiter` lets live at once.
use odyshell.Base.{
  ℕ, zero, suc, ◌+◌, ◌-◌, ◌≤◌, ◌≡◌, ◌∙◌, refl, ap, inl, inr, Bool, true, false, ◌&&◌, Option, none,
  some, List, [], ◌∷◌, String, ◌==◌, if◌then◌else◌, any, arith, find, Bool-cases, string_discrete,
}
use odyshell.Base.Arrays
use odyshell.Server.Control.Concurrency.{
  Count, ConcurrencyLimiter, count_of, counts_key, set_count, decrement_or_delete, user_key,
  acquire, release, set_same, set_other, decrement_same, decrement_other, count_of-any,
}
use odyshell.Server.Control.Concurrency.Bounds.{
  IsBounded, acquire-IsBounded, release-IsBounded, acquire-taken,
}

pub record Connection : Type 0 where
  pub organization_id : String
  pub user_id : String

abbrev pub organization_of : Connection → String
organization_of c = c.organization_id

abbrev pub user_of : Connection → String
user_of c = user_key c.organization_id c.user_id

-- The connections that are open, with the limiter. One is opened if the limiter lets it in, and the one
-- at `index` is closed.
pub data Request : Type 0 where
  opens : (organization_id user_id : String) → Request
  closes : (index : ℕ) → Request

pub record Service : Type 0 where
  pub limiter : ConcurrencyLimiter
  pub connections : List Connection

unfoldable pub drop_at : ℕ → List Connection → List Connection
drop_at n [] = []
drop_at zero (c ∷ cs) = cs
drop_at (suc n) (c ∷ cs) = c ∷ drop_at n cs

abbrev let_in : Connection → Bool → ConcurrencyLimiter → Service → Service
let_in c true l s = record { limiter = l; connections = c ∷ s.connections }
let_in c false l s = record s { limiter = l }

abbrev close_at : ℕ → Option Connection → Service → Service
close_at n none s = s
close_at n (some c) s = record {
  limiter = release c.organization_id c.user_id s.limiter;
  connections = drop_at n s.connections;
}

abbrev serve_one : Request → Service → Service
serve_one (opens o u) s =
    let (later, allowed) = acquire o u s.limiter in
    let_in (record { organization_id = o; user_id = u }) allowed later s
serve_one (closes n) s = close_at n (Arrays.get_elem? s.connections n) s

unfoldable pub serve : List Request → Service → Service
serve [] s = s
serve (r ∷ rest) s = serve rest (serve_one r s)

-- How many of the connections pass a test.
unfoldable pub live : (Connection → Bool) → List Connection → ℕ
live p [] = 0
live p (c ∷ cs) = if p c then suc (live p cs) else live p cs

abbrev pub of_key : (Connection → String) → String → Connection → Bool
of_key f k c = f c == k

live-drop_at :
    (p : Connection → Bool) (n : ℕ) (cs : List Connection) (c : Connection)
    → Arrays.get_elem? cs n ≡ some c
    → live p cs ≡ (if p c then suc (live p (drop_at n cs)) else live p (drop_at n cs))
unfolding live drop_at
live-drop_at p n [] c e = ground arith
live-drop_at p zero (x ∷ cs) c e = ground arith
live-drop_at p (suc n) (x ∷ cs) c e = ground (arith, live-drop_at p n cs c e)

live-narrow :
    (p q : Connection → Bool) (cs : List Connection)
    → ((c : Connection) → p c ≡ true → q c ≡ true)
    → live p cs ≤ live q cs
unfolding live
live-narrow p q [] h = ground arith
live-narrow p q (c ∷ cs) h = ground (arith, h c, live-narrow p q cs h)

-- Each key's count is the number of its connections.
abbrev HasCounts : (Connection → String) → List Count → List Connection → Type 0
HasCounts f counts cs = (k : String) → count_of counts k ≡ live (of_key f k) cs

hits : (f : Connection → String) (c : Connection) (k : String) → k ≡ f c → of_key f k c ≡ true
hits f c k same = ground arith

opened-HasCounts :
    (f : Connection → String) (c : Connection) (counts : List Count) (cs : List Connection)
    → HasCounts f counts cs
    → HasCounts f (set_count (f c) (count_of counts (f c) + 1) counts) (c ∷ cs)
unfolding live
opened-HasCounts f c counts cs h k = elim (string_discrete k (f c)) [
  | yes same ↦
      let more : count_of (set_count (f c) (count_of counts (f c) + 1) counts) k
          ≡ count_of counts (f c) + 1 =
        ap (count_of (set_count (f c) (count_of counts (f c) + 1) counts)) same
        ∙ set_same (f c) (count_of counts (f c) + 1) counts in
      let one : count_of counts k ≡ count_of counts (f c) = ap (count_of counts) same in
      let hit : of_key f k c ≡ true = hits f c k same in let before = h k in ground arith
  | no other ↦
      let more = set_other (f c) k (count_of counts (f c) + 1) counts other in
      let before = h k in ground arith
]

closed-HasCounts :
    (f : Connection → String) (n : ℕ) (c : Connection) (counts : List Count) (cs : List Connection)
    → Arrays.get_elem? cs n ≡ some c
    → HasCounts f counts cs
    → HasCounts f (decrement_or_delete (f c) counts) (drop_at n cs)
closed-HasCounts f n c counts cs e h k =
    let gone = live-drop_at (of_key f k) n cs c e in
    elim (string_discrete k (f c)) [
      | yes same ↦
          let less : count_of (decrement_or_delete (f c) counts) k ≡ count_of counts (f c) - 1 =
            ap (count_of (decrement_or_delete (f c) counts)) same ∙ decrement_same (f c) counts in
          let one : count_of counts k ≡ count_of counts (f c) = ap (count_of counts) same in
          let hit : of_key f k c ≡ true = hits f c k same in let before = h k in ground arith
      | no other ↦
          let less = decrement_other (f c) k counts other in let before = h k in ground arith
    ]

unchanged :
    (o u : String) (l : ConcurrencyLimiter) → (acquire o u l).1 ≡ false → (acquire o u l).0 ≡ l
unfolding acquire
unchanged o u l h = ground arith

-- A connection that is open is counted, so the limiter knows its user.
known :
    (n : ℕ) (c : Connection) (counts : List Count) (cs : List Connection)
    → Arrays.get_elem? cs n ≡ some c
    → HasCounts user_of counts cs
    → any (counts_key (user_of c)) counts ≡ true
known n c counts cs e h =
    let gone = live-drop_at (of_key user_of (user_of c)) n cs c e in
    let hit = hits user_of c (user_of c) refl in
    let here = h (user_of c) in
    elim (Bool-cases (any (counts_key (user_of c)) counts)) [
      | inl held ↦ held
      | inr missing ↦ let zero_there = count_of-any (user_of c) counts missing in ground arith
    ]

given_back : Connection → ConcurrencyLimiter → ConcurrencyLimiter
given_back c l = record l {
  users = decrement_or_delete (user_of c) l.users;
  organizations = decrement_or_delete c.organization_id l.organizations;
}

release-given_back :
    (c : Connection) (l : ConcurrencyLimiter)
    → any (counts_key (user_of c)) l.users ≡ true
    → release c.organization_id c.user_id l ≡ given_back c l
unfolding release given_back
release-given_back c l held = rw held refl

-- The limiter counts the connections that are open, and no count exceeds its limit.
record IsCounted (organization_limit user_limit : ℕ) (s : Service) : Type 0 where
  organizations : HasCounts organization_of s.limiter.organizations s.connections
  users : HasCounts user_of s.limiter.users s.connections
  bounded : IsBounded s.limiter
  same_organization : s.limiter.organization_limit ≡ organization_limit
  same_user : s.limiter.user_limit ≡ user_limit

module _ (organization_limit user_limit : ℕ) where
  open-IsCounted :
      (o u : String) (s : Service)
      → IsCounted organization_limit user_limit s
      → IsCounted organization_limit user_limit (serve_one (opens o u) s)
  open-IsCounted o u s h = elim (Bool-cases (acquire o u s.limiter).1) [
    | inr full ↦ rw (full, unchanged o u s.limiter full) h
    | inl room ↦
        let kept = acquire-IsBounded o u s.limiter h.bounded in
        rw (room, acquire-taken o u s.limiter room)
          (record {
            organizations =
                opened-HasCounts organization_of (record { organization_id = o; user_id = u })
                  s.limiter.organizations s.connections h.organizations;
            users =
                opened-HasCounts user_of (record { organization_id = o; user_id = u })
                  s.limiter.users s.connections h.users;
            bounded = rw (acquire-taken o u s.limiter room) at kept;
            same_organization = h.same_organization;
            same_user = h.same_user;
          })
  ]

  close-IsCounted :
      (n : ℕ) (s : Service)
      → IsCounted organization_limit user_limit s
      → IsCounted organization_limit user_limit (serve_one (closes n) s)
  unfolding given_back
  close-IsCounted n s h = go (Arrays.get_elem? s.connections n) refl
    where
      go :
          (o : Option Connection)
          → Arrays.get_elem? s.connections n ≡ o
          → IsCounted organization_limit user_limit (close_at n o s)
      go none e = h
      go (some c) e =
          let kept = release-IsBounded c.organization_id c.user_id s.limiter h.bounded in
          let same =
            release-given_back c s.limiter (known n c s.limiter.users s.connections e h.users) in
          rw (same) (record {
            organizations =
                closed-HasCounts organization_of n c s.limiter.organizations s.connections e
                  h.organizations;
            users = closed-HasCounts user_of n c s.limiter.users s.connections e h.users;
            bounded = rw (same) at kept;
            same_organization = h.same_organization;
            same_user = h.same_user;
          })

  serve-IsCounted :
      (requests : List Request) (s : Service)
      → IsCounted organization_limit user_limit s
      → IsCounted organization_limit user_limit (serve requests s)
  unfolding serve
  serve-IsCounted [] s h = h
  serve-IsCounted (opens o u ∷ rest) s h = serve-IsCounted rest _ (open-IsCounted o u s h)
  serve-IsCounted (closes n ∷ rest) s h = serve-IsCounted rest _ (close-IsCounted n s h)

  -- A service with no connection, and a new limiter.
  abbrev pub new_service : Service
  new_service = record {
    limiter = record {
      organization_limit = organization_limit;
      user_limit = user_limit;
      organizations = [];
      users = [];
    };
    connections = [];
  }

  -- Whatever connections are opened and closed, in whatever order, the connections of an Organization
  -- that are open at once are at most the limit of an Organization, and those of one of its users at
  -- most the limit of a user. Each connection that is opened asks the limiter, and gives back when it
  -- closes.
  pub serve-live :
      (requests : List Request) (o u : String)
      → let later = (serve requests new_service).connections in
        (live (λ c. c.organization_id == o) later ≤ organization_limit)
        × (live (λ c. (c.organization_id == o) && (c.user_id == u)) later ≤ user_limit)
  unfolding live count_of find
  serve-live requests o u =
      let h = serve-IsCounted requests new_service (record {
        organizations = λ k. refl;
        users = λ k. refl;
        bounded = record { for_organization = λ k. omega arith; for_user = λ k. omega arith };
        same_organization = refl;
        same_user = refl;
      }) in
      let later = (serve requests new_service).connections in
      let in_organization = h.organizations o in
      let in_user = h.users (user_key o u) in
      let few = h.bounded.for_organization o in
      let few_of_user = h.bounded.for_user (user_key o u) in
      let limit = h.same_organization in
      let limit_of_user = h.same_user in
      let narrow =
        live-narrow (λ c. (c.organization_id == o) && (c.user_id == u))
          (of_key user_of (user_key o u)) later (λ c e. ground arith) in
      (omega arith, omega arith)
