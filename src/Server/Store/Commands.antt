-- ===== src/Server/Store/Commands.antt =====
-- apps/server/src/session-database.ts: creating Commands, finding them, and cancelling one.
pub mod Effects
use odyshell.Base.{
  ℕ, Bool, true, false, not, ◌&&◌, ◌||◌, Option, none, some, List, [], ◌∷◌, String, ◌==◌,
  if◌then◌else◌, length, find, select, update, any, returning_first,
}
use odyshell.Protocol.Session.{Command, CommandStatus}
use odyshell.Server.Store.{Store, CommandRow, change_command, command_key, is_active_command}
use odyshell.Server.Store.Sessions.{Stored, created, replayed, idempotency_conflict}

pub record CommandCreation : Type 0 where
  pub command : Command
  pub idempotency_key_hash : String
  pub request_fingerprint : String

abbrev pub row_command : Option CommandRow → Option Command
row_command none = none
row_command (some r) = some r.command_record

unfoldable pub command : Store → String → String → Option Command
command st organization_id command_id =
    row_command (find (command_key organization_id command_id) st.commands)

-- The active Commands of one Session.
abbrev pub active_in : String → String → CommandRow → Bool
active_in organization_id session_id r =
    r.organization_id == organization_id && r.session_id == session_id && is_active_command r.status

unfoldable pub count_active_commands : Store → String → String → ℕ
count_active_commands st organization_id session_id =
    length (select (active_in organization_id session_id) st.commands)

abbrev pub command_idempotency_key : String → String → String → CommandRow → Bool
command_idempotency_key organization_id session_id key_hash r =
    r.organization_id == organization_id
    && r.session_id == session_id
    && r.idempotency_key_hash == key_hash

unfoldable pub command_by_idempotency : Store → String → String → String → Option CommandRow
command_by_idempotency st organization_id session_id key_hash =
    find (command_idempotency_key organization_id session_id key_hash) st.commands

abbrev pub command_insert : CommandCreation → CommandRow
command_insert input = record {
  command_record = input.command;
  idempotency_key_hash = input.idempotency_key_hash;
  request_fingerprint = input.request_fingerprint;
}

-- The primary key and the unique constraint of the table.
abbrev pub command_clash : CommandRow → CommandRow → Bool
command_clash new r =
    r.id == new.id
    || command_idempotency_key new.organization_id new.session_id new.idempotency_key_hash r

abbrev pub replay_command : String → Option CommandRow → Stored Command
replay_command request_fingerprint none = idempotency_conflict
replay_command request_fingerprint (some existing) =
    if existing.request_fingerprint == request_fingerprint
    then replayed existing.command_record
    else idempotency_conflict

-- `none` is the error that the insert throws where the Session that the row refers to is missing.
unfoldable pub create_command : CommandCreation → Store → Store × Option (Stored Command)
unfolding command_by_idempotency
create_command input st =
    let row = command_insert input in
    if any (command_clash row) st.commands
    then (
      st,
      some (
          replay_command input.request_fingerprint (
            command_by_idempotency st row.organization_id row.session_id
              input.idempotency_key_hash)),
    )
    else if any (λ r. r.id == row.session_id) st.sessions
    then (record st { commands = row ∷ st.commands }, some (created input.command))
    else (st, none)

abbrev pub cancel_row : Command → Command
cancel_row c = record c { status = CommandStatus.cancellation_requested }

cancel_found : Store → String → String → Option CommandRow → Store × Option Command
cancel_found st organization_id command_id none = (st, none)
cancel_found st organization_id command_id (some current) =
    let key = command_key organization_id command_id in
    if not (is_active_command current.status) then (st, some current.command_record) else (
      record st { commands = update key (change_command cancel_row) st.commands },
      row_command (returning_first key (change_command cancel_row) st.commands),
    )

unfoldable pub request_command_cancellation :
    String → String → String → Store → Store × Option Command
unfolding cancel_found
request_command_cancellation organization_id agent_id command_id st =
    cancel_found st organization_id command_id
      (find (λ r. command_key organization_id command_id r && r.agent_id == agent_id) st.commands)
