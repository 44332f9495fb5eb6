-- ===== src/Server/Store/Sessions.antt =====
-- apps/server/src/session-database.ts: creating Sessions, finding them, and the Human decision on them.
pub mod Effects
use odyshell.Base.{
  ℕ, ◌+◌, ◌-◌, Bool, true, false, not, ◌&&◌, ◌||◌, Option, none, some, List, [], ◌∷◌, map, String,
  ◌==◌, if◌then◌else◌, leb, ltb, length, find, select, update, any, returning_first, order_by,
  limit, min, max,
}
use odyshell.Protocol.Session.{Session, opening, active, cancelled, expired}
use odyshell.Server.Store.{
  Store, SessionRow, change, session_key, is_active_session, is_live, is_pending,
}

pub data Stored {ℓ} (A : Type ℓ) : Type ℓ where
  created replayed : A → Stored A
  idempotency_conflict : Stored A

pub record SessionCreation : Type 0 where
  pub session : Session
  pub idempotency_key_hash : String
  pub request_fingerprint : String

unfoldable pub count_active_sessions : Store → String → String → ℕ
count_active_sessions st organization_id machine_id = length (
    select
      (λ r.
        r.organization_id == organization_id
        && r.machine_id == machine_id
        && is_active_session r.status)
      st.sessions)

abbrev pub idempotency_key : String → String → String → SessionRow → Bool
idempotency_key organization_id agent_id key_hash r =
    r.organization_id == organization_id
    && r.agent_id == agent_id
    && r.idempotency_key_hash == key_hash

unfoldable pub session_by_idempotency : Store → String → String → String → Option SessionRow
session_by_idempotency st organization_id agent_id key_hash =
    find (idempotency_key organization_id agent_id key_hash) st.sessions

abbrev pub session_insert : SessionCreation → SessionRow
session_insert input = record {
  session = input.session;
  idempotency_key_hash = input.idempotency_key_hash;
  request_fingerprint = input.request_fingerprint;
}

-- The primary key and the unique constraint of the table.
abbrev pub session_clash : SessionRow → SessionRow → Bool
session_clash new r =
    r.id == new.id || idempotency_key new.organization_id new.agent_id new.idempotency_key_hash r

abbrev pub replay_session : String → Option SessionRow → Stored Session
replay_session request_fingerprint none = idempotency_conflict
replay_session request_fingerprint (some existing) =
    if existing.request_fingerprint == request_fingerprint
    then replayed existing.session
    else idempotency_conflict

unfoldable pub create_session : SessionCreation → Store → Store × Stored Session
unfolding session_by_idempotency
create_session input st =
    let row = session_insert input in
    if any (session_clash row) st.sessions
    then (
      st,
      replay_session input.request_fingerprint
          (session_by_idempotency st row.organization_id row.agent_id input.idempotency_key_hash),
    )
    else (record st { sessions = row ∷ st.sessions }, created input.session)

abbrev pub row_session : Option SessionRow → Option Session
row_session none = none
row_session (some r) = some r.session

unfoldable pub session : Store → String → String → Option Session
session st organization_id session_id =
    row_session (find (session_key organization_id session_id) st.sessions)

unfoldable pub list_sessions : Store → String → ℕ → List Session
list_sessions st organization_id most =
    map (λ r. r.session)
      (limit (min (max most 1) 200) (
        order_by (λ a b. ltb b.created_at a.created_at)
          (select (λ r. r.organization_id == organization_id) st.sessions)))

pub data Decision : Type 0 where
  approve deny : Decision

abbrev pub is_approve : Decision → Bool
is_approve approve = true
is_approve deny = false

pub data Decided : Type 0 where
  not_found conflict : Decided
  approved denied : Session → (changed : Bool) → Decided

-- The approved Session runs for as long as was asked for, from the decision on.
abbrev pub decide_row : Decision → ℕ → Session → Session
decide_row approve now s = record s {
  status = opening;
  expires_at = now + s.expires_at - s.created_at;
}
decide_row deny now s = record s { status = cancelled; finished_at = some now }

abbrev pub expire_row : ℕ → Session → Session
expire_row now s = record s { status = expired; finished_at = some now }

abbrev pub decided : Decision → Option SessionRow → Decided
decided decision none = conflict
decided approve (some r) = approved r.session true
decided deny (some r) = denied r.session true

decide_pending : Store → String → String → Decision → ℕ → SessionRow → Store × Decided
decide_pending st organization_id session_id decision now current =
    let pending : SessionRow → Bool =
      λ r. session_key organization_id session_id r && is_pending r.status in
    if leb current.expires_at now
    then (record st { sessions = update pending (change (expire_row now)) st.sessions }, conflict)
    else (
      record st { sessions = update pending (change (decide_row decision now)) st.sessions },
      decided decision (returning_first pending (change (decide_row decision now)) st.sessions),
    )

decide_found : Store → String → String → Decision → ℕ → Option SessionRow → Store × Decided
unfolding decide_pending
decide_found st organization_id session_id decision now none = (st, not_found)
decide_found st organization_id session_id decision now (some current) =
    if is_approve decision && is_live current.status
    then (st, approved current.session false)
    else if not (is_pending current.status)
    then (st, conflict)
    else decide_pending st organization_id session_id decision now current

unfoldable pub decide_session : String → String → Decision → ℕ → Store → Store × Decided
unfolding decide_found
decide_session organization_id session_id decision now st =
    decide_found st organization_id session_id decision now
      (find (session_key organization_id session_id) st.sessions)
