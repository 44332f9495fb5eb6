-- ===== src/Server/Store/Reports.antt =====
-- apps/server/src/session-database.ts: what a Machine's Client reports of its Sessions and Commands.
pub mod Effects
pub mod Repetition
use odyshell.Base.{
  ℕ, ◌+◌, Bool, true, false, not, ◌&&◌, ◌||◌, Option, none, some, List, [], ◌∷◌, String, ◌==◌,
  if◌then◌else◌, ltb, leb, eqb, length, find, select, update, any, returning_first, is_some,
  order_by, limit, remove,
}
use odyshell.Protocol.Session.{
  Session, SessionStatus, Command, CommandStatus, ℤ, command_status, active, running,
  default_command_output_bytes,
}
use odyshell.Protocol.Messages.{OutputStream, stdout, stderr, CommandCompleted}
use odyshell.Server.Store.{
  Store, SessionRow, CommandRow, OutputChunk, AuditType, session_opened, session_open_failed,
  session_closed, command_completed, change, change_command, session_key, command_key, is_opening,
  is_closable, is_active_command, is_undelivered, append,
}
use odyshell.Server.Store.Sessions.{row_session}
use odyshell.Server.Store.Commands.{row_command, command}

pub record OpenedReport : Type 0 where
  pub organization_id : String
  pub machine_id : String
  pub session_id : String
  pub client_profile_id : String
  pub operating_system_user : String

abbrev pub opened_key : OpenedReport → SessionRow → Bool
opened_key input r =
    session_key input.organization_id input.session_id r
    && r.machine_id == input.machine_id
    && r.client_profile_id == input.client_profile_id
    && r.operating_system_user == input.operating_system_user
    && is_opening r.status

abbrev pub open_row : ℕ → Session → Session
open_row now s = record s { status = active; ready_at = some now }

append_session : Option SessionRow → AuditType → Store → Store
unfolding append
append_session none event st = st
append_session (some r) event st =
    append
      (record {
        organization_id = r.organization_id;
        agent_id = r.agent_id;
        session_id = r.id;
        command_id = none;
        event = event;
      })
      st

append_opened : Option SessionRow → Store → Store
unfolding append_session
append_opened none st = st
append_opened (some r) st =
    append_session (some r)
      (session_opened r.machine_id r.client_profile_id r.operating_system_user) st

unfoldable pub mark_session_opened : OpenedReport → ℕ → Store → Store × Option Session
unfolding append_opened
mark_session_opened input now st =
    let row = returning_first (opened_key input) (change (open_row now)) st.sessions in
    (
      append_opened row
          (record st { sessions = update (opened_key input) (change (open_row now)) st.sessions }),
      row_session row,
    )

abbrev pub on_machine : String → String → String → SessionRow → Bool
on_machine organization_id machine_id session_id r =
    session_key organization_id session_id r && r.machine_id == machine_id

abbrev pub finish_row : SessionStatus → ℕ → Session → Session
finish_row status now s = record s { status = status; finished_at = some now }

-- The message is cut to 2048 characters by `error.slice`, a parameter of the model.
unfoldable pub mark_session_failed :
    (String → String) → String → String → String → String → ℕ → Store → Store × Bool
unfolding append_session
mark_session_failed slice organization_id machine_id session_id error now st =
    let key : SessionRow → Bool =
      λ r. on_machine organization_id machine_id session_id r && is_opening r.status in
    let fail = change (finish_row SessionStatus.failed now) in
    let row = returning_first key fail st.sessions in
    (
      append_session row (session_open_failed (slice error))
          (record st { sessions = update key fail st.sessions }),
      is_some row,
    )

abbrev pub closed_status : String → SessionStatus
closed_status reason =
    if reason == "expired" then SessionStatus.expired else SessionStatus.cancelled

unfoldable pub mark_session_closed : String → String → String → String → ℕ → Store → Store × Bool
unfolding append_session
mark_session_closed organization_id machine_id session_id reason now st =
    let key : SessionRow → Bool =
      λ r. on_machine organization_id machine_id session_id r && is_closable r.status in
    let close = change (finish_row (closed_status reason) now) in
    let row = returning_first key close st.sessions in
    (
      append_session row (session_closed reason)
          (record st { sessions = update key close st.sessions }),
      is_some row,
    )

abbrev pub command_on_machine : String → String → String → CommandRow → Bool
command_on_machine organization_id machine_id command_id r =
    command_key organization_id command_id r && r.machine_id == machine_id

abbrev pub start_row : ℕ → Command → Command
start_row started_at c = record c { status = running; started_at = some started_at }

unfoldable pub mark_command_started : String → String → String → ℕ → Store → Store × Bool
mark_command_started organization_id machine_id command_id started_at st =
    let key : CommandRow → Bool =
      λ r. command_on_machine organization_id machine_id command_id r && is_undelivered r.status in
    let start = change_command (start_row started_at) in
    (
      record st { commands = update key start st.commands },
      is_some (returning_first key start st.commands),
    )

pub record OutputReport : Type 0 where
  pub organization_id : String
  pub machine_id : String
  pub command_id : String
  pub stream : OutputStream
  pub sequence : ℕ
  pub bytes : List ℕ

abbrev pub chunk_key : String → String → OutputChunk → Bool
chunk_key organization_id command_id k =
    k.organization_id == organization_id && k.command_id == command_id

abbrev pub add_bytes : OutputStream → ℕ → Command → Command
add_bytes stdout n c = record c { stdout_bytes = c.stdout_bytes + n }
add_bytes stderr n c = record c { stderr_bytes = c.stderr_bytes + n }

abbrev pub chunk_of : OutputReport → ℕ → OutputChunk
chunk_of input expires_at = record {
  organization_id = input.organization_id;
  command_id = input.command_id;
  sequence = input.sequence;
  stream = input.stream;
  bytes = input.bytes;
  expires_at = expires_at;
}

add_output : OutputReport → ℕ → Option CommandRow → Store → Store × Bool
add_output input now none st = (st, false)
add_output input now (some c) st =
    if ltb default_command_output_bytes (c.stdout_bytes + c.stderr_bytes + length input.bytes)
    then (st, false)
    else if any
        (λ k. chunk_key input.organization_id input.command_id k && eqb k.sequence input.sequence)
        st.chunks
    then (st, true)
    else (
      record st {
        chunks = chunk_of input (now + st.retention) ∷ st.chunks;
        commands =
            update (command_key input.organization_id input.command_id)
              (change_command (add_bytes input.stream (length input.bytes))) st.commands;
      },
      true,
    )

unfoldable pub add_command_output : OutputReport → ℕ → Store → Store × Bool
unfolding add_output
add_command_output input now st =
    add_output input now
      (find
        (λ r.
          command_on_machine input.organization_id input.machine_id input.command_id r
          && is_active_command r.status)
        st.commands)
      st

-- The inner join keeps the chunks of a Command that is there.
unfoldable pub command_output : Store → String → String → Option ℕ → ℕ → List OutputChunk
command_output st organization_id command_id after_sequence now = limit 256 (
    order_by (λ a b. ltb a.sequence b.sequence)
      (select
        (λ k.
          chunk_key organization_id command_id k
          && is_after after_sequence k.sequence
          && ltb now k.expires_at
          && any (command_key organization_id command_id) st.commands)
        st.chunks))
  where
    -- `none` is the -1 that asks for every chunk.
    is_after : Option ℕ → ℕ → Bool
    is_after none n = true
    is_after (some a) n = ltb a n

abbrev pub complete_row : (String → String) → CommandCompleted → Command → Command
complete_row slice input c = record c {
  status = command_status input.status;
  exit_code = input.exit_code;
  error = cut input.error;
  output_truncated = input.output_truncated;
  finished_at = some input.at;
}
  where
    cut : Option String → Option String
    cut none = none
    cut (some e) = some (slice e)

append_completed : Option CommandRow → Store → Store
unfolding append
append_completed none st = st
append_completed (some r) st =
    append
      (record {
        organization_id = r.organization_id;
        agent_id = r.agent_id;
        session_id = r.session_id;
        command_id = some r.id;
        event =
            command_completed r.status r.exit_code r.output_truncated r.stdout_bytes r.stderr_bytes;
      })
      st

unfoldable pub mark_command_completed :
    (String → String) → String → String → CommandCompleted → Store → Store × Option Command
unfolding append_completed command
mark_command_completed slice organization_id machine_id input st =
    let key : CommandRow → Bool = λ r.
      command_on_machine organization_id machine_id input.command_id r
      && is_active_command r.status in
    let finish = change_command (complete_row slice input) in
    let row = returning_first key finish st.commands in
    (
      append_completed row (record st { commands = update key finish st.commands }),
      if is_some row then row_command row else command st organization_id input.command_id,
    )

unfoldable pub purge_expired_command_output : ℕ → Store → Store × ℕ
purge_expired_command_output now st =
    let old : OutputChunk → Bool = λ k. leb k.expires_at now in
    (record st { chunks = remove old st.chunks }, length (select old st.chunks))
