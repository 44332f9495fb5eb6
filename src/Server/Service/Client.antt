-- ===== src/Server/Service/Client.antt =====
-- The interface `SessionClient` of sessions.ts, with what the service relies on, and the one that
-- apps/server/src/index.ts builds over the gateway.
use odyshell.Base.{ℕ, Bool, true, false, ◌∷◌, String, ◌≡◌, if◌then◌else◌, arith}
use odyshell.Protocol.Session.{Session, Command}
use odyshell.Protocol.Messages.{ServerMessage, session_close, command_cancel}
use odyshell.Server.Store.Reconnect.{open_message, start_message}
use odyshell.Server.Service.World.{
  World, Failure, M, client_unavailable, command_undelivered, returned, thrown,
}

-- A Client's messages leave the database as it is.
abbrev pub KeepsStore : {A : Type 0} → M A → Type 0
KeepsStore m = (w : World) → (m w).0.store ≡ w.store

pub record SessionClient : Type 0 where
  pub open_session : Session → M (Unit {0})
  pub start_command : Command → M (Unit {0})
  pub close_session : Session → String → M (Unit {0})
  pub cancel_command : Command → M (Unit {0})
  pub open_keeps : (s : Session) → KeepsStore (open_session s)
  pub start_keeps : (c : Command) → KeepsStore (start_command c)
  pub close_keeps : (s : Session) (reason : String) → KeepsStore (close_session s reason)
  pub cancel_keeps : (c : Command) → KeepsStore (cancel_command c)

-- `gateway.send`: false, and nothing sent, where the Machine has no open connection.
module _ (connected : String → Bool) where
  unfoldable pub gateway_send : String → ServerMessage → World → World × Bool
  gateway_send machine_id message w =
      if connected machine_id
      then (record w { sent = (machine_id, message) ∷ w.sent }, true)
      else (w, false)

  unfoldable pub send_or : Failure → String → ServerMessage → M (Unit {0})
  unfolding gateway_send
  send_or failure machine_id message w =
      let (later, delivered) = gateway_send machine_id message w in
      (later, (if delivered then returned tt else thrown failure))

  unfoldable pub send_anyway : String → ServerMessage → M (Unit {0})
  unfolding gateway_send
  send_anyway machine_id message w = ((gateway_send machine_id message w).0, returned tt)

  pub send_or-KeepsStore :
      (failure : Failure) (machine_id : String) (message : ServerMessage)
      → KeepsStore (send_or failure machine_id message)
  unfolding send_or
  send_or-KeepsStore failure machine_id message w = ground arith

  pub send_anyway-KeepsStore :
      (machine_id : String) (message : ServerMessage) → KeepsStore (send_anyway machine_id message)
  unfolding send_anyway
  send_anyway-KeepsStore machine_id message w = ground arith

  -- `clock` is the Server's time at the moment of sending.
  unfoldable pub gateway_client : ℕ → SessionClient
  unfolding send_or send_anyway
  gateway_client clock = record {
    open_session = λ s. send_or client_unavailable s.machine_id (open_message s clock);
    start_command = λ c. send_or command_undelivered c.machine_id (start_message c);
    close_session = λ s reason. send_anyway s.machine_id (session_close s.id reason);
    cancel_command = λ c. send_anyway c.machine_id (command_cancel c.id);
    open_keeps = λ s. send_or-KeepsStore client_unavailable s.machine_id (open_message s clock);
    start_keeps = λ c. send_or-KeepsStore command_undelivered c.machine_id (start_message c);
    close_keeps = λ s reason. send_anyway-KeepsStore s.machine_id (session_close s.id reason);
    cancel_keeps = λ c. send_anyway-KeepsStore c.machine_id (command_cancel c.id);
  }
