-- ===== src/Server/Store/Endings.antt =====
-- apps/server/src/session-database.ts: how Sessions end: by their Agent, by time, and by revocation.
pub mod Effects
use odyshell.Base.{
  ℕ, Bool, true, false, not, ◌&&◌, ◌||◌, Option, none, some, List, [], ◌∷◌, map, String, ◌==◌,
  if◌then◌else◌, ltb, leb, length, find, select, update, any, returning, returning_first, remove,
}
use odyshell.Protocol.Session.{Session, SessionStatus, Command}
use odyshell.Server.Store.{
  Store, SessionRow, CommandRow, change, change_command, session_key, command_key,
  is_active_session, is_pending, is_live, is_finished, append,
}
use odyshell.Server.Store.Authorities.{authority_key}
use odyshell.Server.Store.Sessions.{expire_row}
use odyshell.Server.Store.Commands.{active_in, cancel_row}
use odyshell.Server.Store.Reports.{finish_row}

pub data Outcome : Type 0 where
  complete cancel : Outcome

abbrev pub is_complete : Outcome → Bool
is_complete complete = true
is_complete cancel = false

pub data Finish : Type 0 where
  not_found commands_active : Finish
  finished : Session → (command_ids : List String) → Finish

abbrev pub ids : List CommandRow → List String
ids = map λ r. r.id

abbrev pub mem_id : List String → String → Bool
mem_id [] i = false
mem_id (j ∷ js) i = i == j || mem_id js i

abbrev pub end_row : Outcome → ℕ → Session → Session
end_row complete now s = record s { status = SessionStatus.completed; finished_at = some now }
end_row cancel now s = record s { status = SessionStatus.cancellation_requested }

-- The row that `executeTakeFirstOrThrow` returns; `current` is that row before the update, and
-- stands for it where there is none, which cannot be inside the transaction.
abbrev first_or : SessionRow → Option SessionRow → Session
first_or current none = current.session
first_or current (some r) = r.session

end_session : Store → String → String → Outcome → ℕ → SessionRow → Store × Finish
end_session st organization_id session_id outcome now current =
    let active = select (active_in organization_id session_id) st.commands in
    let key = session_key organization_id session_id in
    if is_complete outcome && ltb 0 (length active) then (st, commands_active) else (
      record st {
        commands =
            if not (is_complete outcome) && ltb 0 (length active)
            then update (λ r. r.organization_id == organization_id && mem_id (ids active) r.id)
                (change_command cancel_row) st.commands
            else st.commands;
        sessions = update key (change (end_row outcome now)) st.sessions;
      },
      finished (first_or current (returning_first key (change (end_row outcome now)) st.sessions))
          (ids active),
    )

finish_found : Store → String → String → Outcome → ℕ → Option SessionRow → Store × Finish
unfolding end_session
finish_found st organization_id session_id outcome now none = (st, not_found)
finish_found st organization_id session_id outcome now (some current) =
    if is_finished current.status
    then (st, finished current.session [])
    else end_session st organization_id session_id outcome now current

unfoldable pub finish_session : String → String → String → Outcome → ℕ → Store → Store × Finish
unfolding finish_found
finish_session organization_id agent_id session_id outcome now st =
    finish_found st organization_id session_id outcome now
      (find (λ r. session_key organization_id session_id r && r.agent_id == agent_id) st.sessions)

abbrev pub request_end : Session → Session
request_end s = record s { status = SessionStatus.cancellation_requested }

-- The loop over the Sessions that the sweep has just ended.
unfoldable pub cancel_commands :
    List SessionRow → List CommandRow → List CommandRow × List (Session × List String)
cancel_commands [] commands = (commands, [])
cancel_commands (s ∷ ss) commands =
    let key = active_in s.organization_id s.id in
    let (later, rest) = cancel_commands ss (update key (change_command cancel_row) commands) in
    (later, (s.session, ids (returning key (change_command cancel_row) commands)) ∷ rest)

abbrev pub lapsed : ℕ → SessionRow → Bool
lapsed now r = is_pending r.status && leb r.expires_at now

abbrev pub overdue : ℕ → SessionRow → Bool
overdue now r = is_live r.status && leb r.expires_at now

unfoldable pub expire_sessions : ℕ → Store → Store × List (Session × List String)
unfolding cancel_commands
expire_sessions now st =
    let dropped = update (lapsed now) (change (expire_row now)) st.sessions in
    let expired = returning (overdue now) (change request_end) dropped in
    let (commands, result) = cancel_commands expired st.commands in
    (
      record st {
        sessions = update (overdue now) (change request_end) dropped;
        commands = commands;
      },
      result,
    )

abbrev pub in_scope : Option String → String → Bool
in_scope none i = true
in_scope (some j) i = i == j

abbrev pub revocable : String → Option String → Option String → SessionRow → Bool
revocable organization_id agent_id machine_id r =
    r.organization_id == organization_id
    && is_active_session r.status
    && in_scope agent_id r.agent_id
    && in_scope machine_id r.machine_id

abbrev pub revoke_row : ℕ → Session → Session
revoke_row now = finish_row SessionStatus.revoked now

-- The loop over the Sessions to revoke.
unfoldable pub revoke_each :
    String → ℕ → List SessionRow → Store → Store × List (Session × List String)
revoke_each organization_id now [] st = (st, [])
revoke_each organization_id now (s ∷ ss) st =
    let key = active_in organization_id s.id in
    let row = session_key organization_id s.id in
    let (later, rest) = revoke_each organization_id now ss (record st {
      commands = update key (change_command cancel_row) st.commands;
      sessions = update row (change (revoke_row now)) st.sessions;
    }) in
    (
      later,
      (
        first_or s (returning_first row (change (revoke_row now)) st.sessions),
        ids (returning key (change_command cancel_row) st.commands),
      )
          ∷ rest,
    )

forget_machine : String → Option String → Store → Store
forget_machine organization_id none st = st
forget_machine organization_id (some machine_id) st = record st {
  authorities = remove (authority_key organization_id machine_id) st.authorities;
}

abbrev unscoped : Option String → Option String → Bool
unscoped none none = true
unscoped _ _ = false

-- `none` is the error that a revocation with no scope throws.
unfoldable pub revoke_sessions :
    String
    → Option String
    → Option String
    → ℕ
    → Store
    → Option (Store × List (Session × List String))
unfolding revoke_each forget_machine
revoke_sessions organization_id agent_id machine_id now st =
    let (later, revoked) =
      revoke_each organization_id now
        (select (revocable organization_id agent_id machine_id) st.sessions) st in
    if unscoped agent_id machine_id
    then none
    else some (forget_machine organization_id machine_id later, revoked)
