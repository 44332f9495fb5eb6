-- ===== src/Server/System/Hooks.antt =====
-- apps/server/src/index.ts: the hooks of the gateway and the expiry sweep, and `closeRevokedSessions`
-- of control-http.ts.
pub mod Effects
use odyshell.Base.{
  ℕ, Bool, true, false, Option, none, some, List, [], ◌∷◌, String, ◌==◌, if◌then◌else◌,
}
use odyshell.Protocol.Session.{Session, Command}
use odyshell.Protocol.Policy.{LocalPolicy}
use odyshell.Protocol.Messages.{
  ClientMessage, session_opened, session_open_failed, session_closed, command_started,
  command_output, command_completed, ServerMessage, session_close, command_cancel,
  command_acknowledged,
}
use odyshell.Server.Store.{MachineAuthority, Store}
use odyshell.Server.Store.Authorities.{put_machine_authority, set_machine_online}
use odyshell.Server.Store.Reports.{
  mark_session_opened, mark_session_failed, mark_session_closed, mark_command_started,
  add_command_output, mark_command_completed,
}
use odyshell.Server.Store.Endings.{expire_sessions, revoke_sessions}
use odyshell.Server.Store.Reconnect.{present, reconnect_state, session_reconnect_messages}
use odyshell.Server.Service.World.{
  World, M, pure, throw, ◌>>=◌, ◌>>◌, query, on_store, when, output_refused, foreign_machine,
  returned,
}
use odyshell.Server.Service.Client.{send_anyway}

-- The Machine that sends, as its connection was authenticated.
pub record MachineContext : Type 0 where
  pub organization_id : String
  pub machine_id : String

-- `connected` tells which Machines have an open connection; `slice` cuts a text to 2048 characters.
module _ (connected : String → Bool) (slice : String → String) where
  accept_output : Bool → M (Unit {0})
  accept_output true = pure tt
  accept_output false = throw output_refused

  acknowledge : String → Option Command → M (Unit {0})
  acknowledge machine_id none = pure tt
  acknowledge machine_id (some c) = send_anyway connected machine_id (command_acknowledged c.id)

  unfoldable pub machine_message : MachineContext → ClientMessage → ℕ → M (Unit {0})
  unfolding accept_output acknowledge
  machine_message context (session_opened session_id profile user) now = do
    opened ← on_store (
        mark_session_opened
          (record {
            organization_id = context.organization_id;
            machine_id = context.machine_id;
            session_id = session_id;
            client_profile_id = profile;
            operating_system_user = user;
          })
          now)
    pure tt
  machine_message context (session_open_failed session_id error) now = do
    failed ←
        on_store (
          mark_session_failed slice context.organization_id context.machine_id session_id error now)
    pure tt
  machine_message context (session_closed session_id reason) now = do
    closed ←
        on_store
          (mark_session_closed context.organization_id context.machine_id session_id reason now)
    pure tt
  machine_message context (command_started command_id at) now = do
    started ←
        on_store (mark_command_started context.organization_id context.machine_id command_id at)
    pure tt
  machine_message context (command_output command_id sequence stream bytes) now = do
    added ← on_store (
        add_command_output
          (record {
            organization_id = context.organization_id;
            machine_id = context.machine_id;
            command_id = command_id;
            stream = stream;
            sequence = sequence;
            bytes = bytes;
          })
          now)
    accept_output added
  machine_message context (command_completed report) now = do
    completed ← on_store (
        mark_command_completed slice context.organization_id context.machine_id
          (record report { error = present report.error }))
    acknowledge context.machine_id completed

  send_cancels : String → List String → M (Unit {0})
  send_cancels machine_id [] = pure tt
  send_cancels machine_id (i ∷ is) =
      send_anyway connected machine_id (command_cancel i) >> send_cancels machine_id is

  -- Each ended Session's Commands are cancelled, and then it is closed.
  unfoldable pub close_sessions : String → List (Session × List String) → M (Unit {0})
  unfolding send_cancels
  close_sessions reason [] = pure tt
  close_sessions reason ((s, command_ids) ∷ rest) =
      send_cancels s.machine_id command_ids
      >> (send_anyway connected s.machine_id (session_close s.id reason)
          >> close_sessions reason rest)

  unfoldable pub sweep : ℕ → M (Unit {0})
  sweep now = do expired ← on_store (expire_sessions now); close_sessions "expired" expired

-- The hook `authenticated`. `owner` is the external identifier of the Organization that the control
-- database gives for the Machine; the rest is what the Client says of itself.
unfoldable pub machine_authenticated :
    Option String
    → (machine_id profile_id operating_system_user : String) → LocalPolicy
    → M (Unit {0})
machine_authenticated none machine_id profile_id user policy = throw foreign_machine
machine_authenticated (some owner) machine_id profile_id user policy =
    if owner == policy.organization_id
    then (on_store λ st. (
      put_machine_authority
          (record {
            organization_id = policy.organization_id;
            machine_id = machine_id;
            client_profile_id = profile_id;
            operating_system_user = user;
            online = true;
            local_policy = policy;
          })
          st,
      tt,
    ))
    else throw foreign_machine

-- The hook `disconnected`.
unfoldable pub machine_disconnected : (machine_id organization_id : String) → M Bool
machine_disconnected machine_id organization_id =
    on_store (set_machine_online organization_id machine_id false)

-- The hook `reconnected`.
unfoldable pub machine_reconnected :
    (machine_id organization_id : String) → ℕ → Store → List ServerMessage
machine_reconnected machine_id organization_id now st =
    session_reconnect_messages (reconnect_state st organization_id machine_id) now
