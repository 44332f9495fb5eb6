-- ===== src/Server/Service/CommandRequests.antt =====
-- apps/server/src/sessions.ts: `createCommand`, as a call that no other overlaps between its count and
-- its insert. Server.System.Interleaving has it as two steps.
pub mod Effects
pub mod Clearing
use odyshell.Base.{ℕ, Bool, true, false, not, Option, none, some, String, ◌==◌, if◌then◌else◌, leb}
use odyshell.Protocol.Session.{Session, CommandRequest, Command, queued}
use odyshell.Protocol.Decision.{CommandDecision, CommandDenial, allowed, command_decision}
use odyshell.Server.Store.{Store, MachineAuthority, CommandRow, command_created}
use odyshell.Server.Store.Authorities.{machine_authority}
use odyshell.Server.Store.Sessions.{Stored, session}
use odyshell.Server.Store.Commands
use odyshell.Server.Store.Commands.{count_active_commands, command_by_idempotency}
use odyshell.Server.Service.World.{
  M, pure, throw, ◌>>=◌, ◌>>◌, query, on_store, audit, missing_session,
}
use odyshell.Server.Service.Client.{SessionClient}
use odyshell.Server.Service.Principal.{AgentPrincipal, Digest}

pub data CommandRefusal : Type 0 where
  session_not_found session_agent_denied : CommandRefusal
  not_allowed : CommandDenial → CommandRefusal
  command_concurrency_denied idempotency_conflict : CommandRefusal

pub data CreateCommandResult : Type 0 where
  created replayed : Command → CreateCommandResult
  denied : CommandRefusal → CreateCommandResult

abbrev replay_creation : String → CommandRow → CreateCommandResult
replay_creation fingerprint row =
    if row.request_fingerprint == fingerprint
    then CreateCommandResult.replayed row.command_record
    else CreateCommandResult.denied CommandRefusal.idempotency_conflict

pub data Clearance : Type 0 where
  cleared : Session → (timeout_seconds : ℕ) → Clearance
  refused : CommandRefusal → Clearance

abbrev clear_decided : Session → ℕ → CommandDecision → Clearance
clear_decided s active_commands (CommandDecision.denied code) = refused (not_allowed code)
clear_decided s active_commands (allowed timeout) =
    if leb s.max_concurrent_commands active_commands
    then refused CommandRefusal.command_concurrency_denied
    else cleared s timeout

clear_machine : Session → CommandRequest → ℕ → ℕ → Option MachineAuthority → Clearance
clear_machine s request active_commands now none = refused session_not_found
clear_machine s request active_commands now (some machine) =
    clear_decided s active_commands (command_decision s request machine.local_policy now)

clear_session : Store → AgentPrincipal → CommandRequest → ℕ → Option Session → Clearance
unfolding clear_machine
clear_session st principal request now none = refused session_not_found
clear_session st principal request now (some s) =
    if not (s.agent_id == principal.agent_id)
    then refused session_agent_denied
    else clear_machine s request (count_active_commands st principal.organization_id s.id) now
        (machine_authority st principal.organization_id s.machine_id)

-- The checks of `createCommand`, in their order.
unfoldable pub clearance : AgentPrincipal → String → CommandRequest → ℕ → Store → Clearance
unfolding clear_session
clearance principal session_id request now st =
    clear_session st principal request now (session st principal.organization_id session_id)

abbrev pub new_command : Session → CommandRequest → ℕ → String → ℕ → Command
new_command s request timeout fresh now = record {
  id = fresh;
  session_id = s.id;
  organization_id = s.organization_id;
  agent_id = s.agent_id;
  machine_id = s.machine_id;
  command = request.command;
  cwd = request.cwd;
  timeout_seconds = timeout;
  status = queued;
  created_at = now;
  started_at = none;
  finished_at = none;
  exit_code = none;
  output_truncated = false;
  stdout_bytes = 0;
  stderr_bytes = 0;
  error = none;
}

-- `fresh` is the `randomUUID()` of the call. `createCommand` reads the clock twice.
module _ (client : SessionClient) (digest : Digest) where
  unfoldable pub command_fingerprint : AgentPrincipal → String → CommandRequest → String
  command_fingerprint principal session_id request =
      digest.hash
        (digest.stringify_command principal.organization_id principal.agent_id session_id request)

  announce_command : Command → M CreateCommandResult
  announce_command c = do
    audit (record {
      organization_id = c.organization_id;
      agent_id = c.agent_id;
      session_id = c.session_id;
      command_id = some c.id;
      event = command_created c.machine_id c.command c.cwd c.timeout_seconds;
    })
    client.start_command c
    pure (CreateCommandResult.created c)

  stored_command : Command → Option (Stored Command) → M CreateCommandResult
  unfolding announce_command
  stored_command c none = throw missing_session
  stored_command c (some Stored.idempotency_conflict) =
      pure (CreateCommandResult.denied CommandRefusal.idempotency_conflict)
  stored_command c (some (Stored.replayed old)) = pure (CreateCommandResult.replayed old)
  stored_command c (some (Stored.created _)) = announce_command c

  unfoldable pub start_cleared :
      AgentPrincipal
      → String
      → CommandRequest
      → String
      → String
      → ℕ
      → Clearance
      → M CreateCommandResult
  unfolding stored_command command_fingerprint
  start_cleared principal session_id request key_hash fresh now (refused code) =
      pure (CreateCommandResult.denied code)
  start_cleared principal session_id request key_hash fresh now (cleared s timeout) =
      let c = new_command s request timeout fresh now in
      do
        stored ← on_store (
            Commands.create_command (record {
              command = c;
              idempotency_key_hash = key_hash;
              request_fingerprint = command_fingerprint principal session_id request;
            }))
        stored_command c stored

  answer_creation :
      AgentPrincipal
      → String
      → CommandRequest
      → String
      → String
      → ℕ
      → ℕ
      → Option CommandRow
      → M CreateCommandResult
  unfolding start_cleared command_fingerprint
  answer_creation principal session_id request key_hash fresh decided_at now (some replay) =
      pure (replay_creation (command_fingerprint principal session_id request) replay)
  answer_creation principal session_id request key_hash fresh decided_at now none = do
    clear ← query (clearance principal session_id request decided_at)
    start_cleared principal session_id request key_hash fresh now clear

  unfoldable pub create_command :
      AgentPrincipal → String → CommandRequest → String → String → ℕ → ℕ → M CreateCommandResult
  unfolding answer_creation
  create_command principal session_id request idempotency_key fresh decided_at now = do
    replay ← query (λ st.
        command_by_idempotency st principal.organization_id session_id
          (digest.hash idempotency_key))
    answer_creation principal session_id request (digest.hash idempotency_key) fresh decided_at now
        replay
