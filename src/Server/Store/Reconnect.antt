-- ===== src/Server/Store/Reconnect.antt =====
-- apps/server/src/session-database.ts and session-reconciliation.ts: what a Machine is told when it
-- connects again.
pub mod Order
use odyshell.Base.{
  ℕ, Bool, true, false, not, ◌&&◌, ◌||◌, Option, none, some, List, [], ◌∷◌, ◌++◌, map, String, ◌==◌,
  if◌then◌else◌, ltb, leb, length, select, order_by, text_before,
}
use odyshell.Protocol.Session.{
  Session, SessionStatus, Command, CommandStatus, default_command_output_bytes,
}
use odyshell.Protocol.Messages.{
  ServerMessage, session_open, session_close, command_start, command_cancel,
}
use odyshell.Server.Store.{Store, SessionRow, CommandRow, is_closable, is_live, is_active_command}
use odyshell.Server.Store.Endings.{mem_id}

pub record ReconnectState : Type 0 where
  pub sessions : List Session
  pub commands : List Command

abbrev older : ℕ → String → ℕ → String → Bool
older t i u j = ltb t u || (leb t u && text_before i j)

unfoldable pub reconnect_state : Store → String → String → ReconnectState
reconnect_state st organization_id machine_id =
    let sessions =
      order_by (λ (a b : SessionRow). older a.created_at a.id b.created_at b.id)
        (select
          (λ (r : SessionRow).
            r.organization_id == organization_id
            && r.machine_id == machine_id
            && is_closable r.status)
          st.sessions) in
    let commands =
      order_by (λ (a b : CommandRow). older a.created_at a.id b.created_at b.id)
        (select
          (λ (r : CommandRow).
            r.organization_id == organization_id
            && r.machine_id == machine_id
            && mem_id (map (λ (s : SessionRow). s.id) sessions) r.session_id
            && is_active_command r.status)
          st.commands) in
    if leb (length sessions) 0 then record { sessions = []; commands = [] } else record {
      sessions = map (λ (s : SessionRow). s.session) sessions;
      commands = map (λ (c : CommandRow). c.command_record) commands;
    }

abbrev pub is_cancelling : CommandStatus → Bool
is_cancelling CommandStatus.cancellation_requested = true
is_cancelling _ = false

abbrev pub is_ending : SessionStatus → Bool
is_ending SessionStatus.cancellation_requested = true
is_ending _ = false

abbrev pub open_message : Session → ℕ → ServerMessage
open_message s now = session_open (record {
  session_id = s.id;
  organization_id = s.organization_id;
  agent_id = s.agent_id;
  client_profile_id = s.client_profile_id;
  expires_at = s.expires_at;
  max_concurrent_commands = s.max_concurrent_commands;
  server_time = now;
})

-- An empty working directory is falsy, and is left out as an absent one is.
abbrev pub present : Option String → Option String
present none = none
present (some d) = if d == "" then none else some d

abbrev pub start_message : Command → ServerMessage
start_message c = command_start (record {
  command_id = c.id;
  session_id = c.session_id;
  command = c.command;
  cwd = present c.cwd;
  timeout_seconds = c.timeout_seconds;
  max_output_bytes = default_command_output_bytes;
})

opens : List Session → ℕ → List ServerMessage
opens [] now = []
opens (s ∷ ss) now =
    let rest = opens ss now in if is_live s.status then open_message s now ∷ rest else rest

-- `sessionById` keeps the last Session of an id, as a `Map` built from the list does.
unfoldable pub session_by_id : String → List Session → Option Session
session_by_id i [] = none
session_by_id i (s ∷ ss) = elim (session_by_id i ss) [
  | none ↦ if s.id == i then some s else none
  | some t ↦ some t
]

abbrev startable : Option Session → Command → Bool
startable none c = false
startable (some s) c = is_live s.status && not (is_cancelling c.status)

starts : List Session → List Command → List ServerMessage
starts sessions [] = []
starts sessions (c ∷ cs) =
    let rest = starts sessions cs in
    if startable (session_by_id c.session_id sessions) c then start_message c ∷ rest else rest

cancels : List Command → List ServerMessage
cancels [] = []
cancels (c ∷ cs) =
    let rest = cancels cs in if is_cancelling c.status then command_cancel c.id ∷ rest else rest

closes : List Session → ℕ → List ServerMessage
closes [] now = []
closes (s ∷ ss) now =
    let rest = closes ss now in
    if is_ending s.status
    then session_close s.id (if leb s.expires_at now then "expired" else "cancelled") ∷ rest
    else rest

unfoldable pub session_reconnect_messages : ReconnectState → ℕ → List ServerMessage
unfolding opens starts cancels closes
session_reconnect_messages state now =
    opens state.sessions now
    ++ (starts state.sessions state.commands
        ++ (cancels state.commands ++ closes state.sessions now))
