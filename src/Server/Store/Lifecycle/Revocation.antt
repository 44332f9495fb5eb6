-- ===== src/Server/Store/Lifecycle/Revocation.antt =====
-- The loop of `revokeSessions`: each row that it selected is still there, and as active, when its
-- turn comes, since the rows have different ids.
use odyshell.Base.{
  ℕ, Bool, true, false, Option, none, some, List, [], ◌∷◌, String, ◌≡◌, ◌≢◌, refl, ap, inl, inr,
  arith, ◌==◌, find, update, select, any, All, find-test, has_key, HasUniqueKeys, Bool-cases,
  All-map, not-any-find,
}
use odyshell.Protocol.Session.{Session}
use odyshell.Server.Store.{Store, SessionRow, change, session_key, is_active_session}
use odyshell.Server.Store.Endings.{revoke_each, revoke_row, revoke_sessions, revocable}
use odyshell.Server.Store.Lifecycle.{
  Advances, has_id, Continues-refl, Continues-trans, Continues-update,
}
use odyshell.Server.Store.Lifecycle.Methods.{row_id, HasUniqueIds, Carries}

-- The rows still stand in the table as they were selected.
Stand : List SessionRow → List SessionRow → Type 0
Stand xs = All (λ r. (find (has_id r.id) xs ≡ some r) × (is_active_session r.status ≡ true))

find-update_other :
    (p : SessionRow → Bool) (f : Session → Session) (i : String) (xs : List SessionRow)
    → ((r : SessionRow) → (f r.session).id ≡ r.id)
    → ((r : SessionRow) → p r ≡ true → r.id ≢ i)
    → find (has_id i) (update p (change f) xs) ≡ find (has_id i) xs
unfolding find update
find-update_other p f i [] same other = refl
find-update_other p f i (r ∷ rs) same other =
    ground (arith, same r, other r, find-update_other p f i rs same other)

Stand-update :
    (organization_id : String) (now : ℕ) (s : SessionRow) (xs rows : List SessionRow)
    → any (has_key row_id s.id) rows ≡ false
    → Stand xs rows
    → Stand (update (session_key organization_id s.id) (change (revoke_row now)) xs) rows
unfolding Stand any
Stand-update organization_id now s xs [] other h = tt
Stand-update organization_id now s xs (r ∷ rs) other ((at_r, live), h) = (
  (
    rw
        (find-update_other (session_key organization_id s.id) (revoke_row now) r.id xs (λ x. refl)
          (λ x k e. ground arith))
        at_r,
    live,
  ),
  Stand-update organization_id now s xs rs (ground arith) h,
)

revoke_Advances :
    (now : ℕ) (r : SessionRow)
    → is_active_session r.status ≡ true
    → Advances r (change (revoke_row now) r)
revoke_Advances now r h = ground arith

revoke_each-Carries :
    (i organization_id : String) (now : ℕ) (rows : List SessionRow) (st : Store)
    → HasUniqueKeys row_id rows
    → Stand st.sessions rows
    → Carries i st (revoke_each organization_id now rows st).0
unfolding revoke_each Stand
revoke_each-Carries i organization_id now [] st unique h = Continues-refl i st.sessions
revoke_each-Carries i organization_id now (s ∷ ss) st unique ((at_s, live), h) =
    let next = update (session_key organization_id s.id) (change (revoke_row now)) st.sessions in
    Continues-trans i st.sessions next _
      (Continues-update i (session_key organization_id s.id) (revoke_row now) st.sessions
        (λ r at_r k. let same : r ≡ s = at_one r at_r k in rw same (revoke_Advances now s live))
        (λ r. refl))
      (revoke_each-Carries i organization_id now ss _ unique.1
        (Stand-update organization_id now s st.sessions ss unique.0 h))
  where
    at_one :
        (r : SessionRow)
        → find (has_id i) st.sessions ≡ some r
        → session_key organization_id s.id r ≡ true
        → r ≡ s
    at_one r at_r k =
        let i_r : (r.id == i) ≡ true = find-test (has_id i) st.sessions r at_r in ground arith

any-select :
    (i : String) (p : SessionRow → Bool) (xs : List SessionRow)
    → any (has_key row_id i) xs ≡ false
    → any (has_key row_id i) (select p xs) ≡ false
unfolding any select
any-select i p [] h = refl
any-select i p (x ∷ xs) h = ground (arith, any-select i p xs)

select-HasUniqueKeys :
    (p : SessionRow → Bool) (xs : List SessionRow)
    → HasUniqueKeys row_id xs
    → HasUniqueKeys row_id (select p xs)
unfolding select
select-HasUniqueKeys p [] h = tt
select-HasUniqueKeys p (x ∷ xs) h =
    ground (arith, select-HasUniqueKeys p xs h.1, any-select x.id p xs h.0)

-- Under unique ids a search by a row's own id finds that row.
find-own :
    (xs : List SessionRow) → HasUniqueKeys row_id xs → All (λ r. find (has_id r.id) xs ≡ some r) xs
unfolding find
find-own [] unique = tt
find-own (x ∷ xs) unique = (
  ground arith,
  All-map (λ r. find (has_id r.id) (x ∷ xs) ≡ some r) xs
      (λ r at_r.
        let other = not-any-find row_id x.id (has_id r.id) xs r unique.0 at_r in ground arith)
      (find-own xs unique.1),
)

select-Stand :
    (organization_id : String) (agent_id machine_id : Option String) (xs rows : List SessionRow)
    → All (λ r. find (has_id r.id) xs ≡ some r) rows
    → Stand xs (select (revocable organization_id agent_id machine_id) rows)
unfolding Stand select
select-Stand organization_id agent_id machine_id xs [] h = tt
select-Stand organization_id agent_id machine_id xs (r ∷ rs) (at_r, h) =
    elim (Bool-cases (revocable organization_id agent_id machine_id r)) [
      | inl e ↦
          rw e ((at_r, ground arith), select-Stand organization_id agent_id machine_id xs rs h)
      | inr e ↦ rw e (select-Stand organization_id agent_id machine_id xs rs h)
    ]

-- A Machine that is forgotten takes no Session with it.
pub revoke_sessions-sessions :
    (organization_id : String) (agent_id machine_id : Option String) (now : ℕ) (st later : Store)
    (revoked : List (Session × List String))
    → revoke_sessions organization_id agent_id machine_id now st ≡ some (later, revoked)
    → (revoke_each organization_id now
        (select (revocable organization_id agent_id machine_id) st.sessions)
        st).0.sessions
      ≡ later.sessions
unfolding revoke_sessions
revoke_sessions-sessions organization_id none none now st later revoked e = cc
revoke_sessions-sessions organization_id (some a) none now st later revoked e =
    ap (λ o. elim o [ none ↦ st.sessions | some r ↦ r.0.sessions ]) e
revoke_sessions-sessions organization_id none (some m) now st later revoked e =
    ap (λ o. elim o [ none ↦ st.sessions | some r ↦ r.0.sessions ]) e
revoke_sessions-sessions organization_id (some a) (some m) now st later revoked e =
    ap (λ o. elim o [ none ↦ st.sessions | some r ↦ r.0.sessions ]) e

pub revoke_sessions-Carries :
    (i organization_id : String) (agent_id machine_id : Option String) (now : ℕ) (st later : Store)
    (revoked : List (Session × List String))
    → HasUniqueIds st
    → revoke_sessions organization_id agent_id machine_id now st ≡ some (later, revoked)
    → Carries i st later
revoke_sessions-Carries i organization_id agent_id machine_id now st later revoked unique e =
    rw (← revoke_sessions-sessions organization_id agent_id machine_id now st later revoked e) (
      revoke_each-Carries i organization_id now
        (select (revocable organization_id agent_id machine_id) st.sessions) st
        (select-HasUniqueKeys (revocable organization_id agent_id machine_id) st.sessions unique)
        (select-Stand organization_id agent_id machine_id st.sessions st.sessions
          (find-own st.sessions unique)))
