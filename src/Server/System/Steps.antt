-- ===== src/Server/System/Steps.antt =====
-- The Server as a transition system: what may happen to it, and a history of it.
use odyshell.Base.{ℕ, Bool, Option, none, some, List, [], ◌∷◌, String}
use odyshell.Protocol.Session.{SessionRequest, CommandRequest}
use odyshell.Protocol.Policy.{LocalPolicy}
use odyshell.Protocol.Messages.{ClientMessage}
use odyshell.Server.Store.Sessions.{Decision}
use odyshell.Server.Store.Endings.{Outcome, revoke_sessions}
use odyshell.Server.Store.Reports.{purge_expired_command_output}
use odyshell.Server.Service.World.{World, on_store}
use odyshell.Server.Service.Client.{SessionClient}
use odyshell.Server.Service.Principal.{AgentPrincipal, Digest}
use odyshell.Server.Service.SessionRequests.{request_session}
use odyshell.Server.Service.CommandRequests.{create_command}
use odyshell.Server.Service.Supervision.{
  SupervisorPrincipal, supervise_session, finish_session, cancel_command,
}
use odyshell.Server.System.Hooks.{
  MachineContext, machine_message, sweep, close_sessions, machine_authenticated,
  machine_disconnected,
}

pub data Action : Type 0 where
  requests : AgentPrincipal → SessionRequest → (idempotency_key fresh : String) (now : ℕ) → Action
  creates :
      AgentPrincipal
      → (session_id : String) → CommandRequest
      → (idempotency_key fresh : String) (decided_at now : ℕ) → Action
  supervises : SupervisorPrincipal → (session_id : String) → Decision → (now : ℕ) → Action
  finishes : AgentPrincipal → (session_id : String) → Outcome → (now : ℕ) → Action
  cancels : AgentPrincipal → (command_id : String) → Action
  reports : MachineContext → ClientMessage → (now : ℕ) → Action
  authenticates :
      Option String → (machine_id profile_id operating_system_user : String) → LocalPolicy → Action
  disconnects : (machine_id organization_id : String) → Action
  sweeps : (now : ℕ) → Action
  revokes :
      (organization_id : String) (agent_id machine_id : Option String) (reason : String) (now : ℕ)
      → Action
  purges : (now : ℕ) → Action
  -- From now on the service's audit works, or fails.
  audits : (works : Bool) → Action

module _ (client : SessionClient) (digest : Digest) (connected : String → Bool)
    (slice : String → String) where
  -- `revokeSessions` and `closeRevokedSessions`, as the handlers of control-http.ts call them.
  unfoldable pub revoke : String → Option String → Option String → String → ℕ → World → World
  revoke organization_id agent_id machine_id reason now w =
      elim (revoke_sessions organization_id agent_id machine_id now w.store) [
        | none ↦ w
        | some (st, revoked) ↦
            (close_sessions connected slice reason revoked (record w { store = st })).0
      ]

  unfoldable pub step : Action → World → World
  unfolding revoke
  step (requests p r key fresh now) w = (request_session client digest p r key fresh now w).0
  step (creates p s r key fresh at now) w =
      (create_command client digest p s r key fresh at now w).0
  step (supervises p s d now) w = (supervise_session client p s d now w).0
  step (finishes p s o now) w = (finish_session client p s o now w).0
  step (cancels p c) w = (cancel_command client p c w).0
  step (reports m msg now) w = (machine_message connected slice m msg now w).0
  step (authenticates owner m p u policy) w = (machine_authenticated owner m p u policy w).0
  step (disconnects m o) w = (machine_disconnected m o w).0
  step (sweeps now) w = (sweep connected slice now w).0
  step (revokes o a m reason now) w = revoke o a m reason now w
  step (audits works) w = record w { store = record w.store { audit_open = works } }
  step (purges now) w = (on_store (purge_expired_command_output now) w).0

  unfoldable pub run : List Action → World → World
  run [] w = w
  run (a ∷ rest) w = run rest (step a w)
