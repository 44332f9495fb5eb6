-- ===== src/Server/Tests.antt =====
-- The Server on concrete inputs: a Machine with one running Session.
use odyshell.Base.{
  Bool, true, false, none, some, List, [], ◌∷◌, String, ◌≡◌, ◌↔◌, ◌<◌, ◌||◌, refl, arith, any, find,
  string_discrete, ◌≤◌,
}
use odyshell.Protocol.Session.{
  Session, SessionStatus, SessionRequest, Command, CommandRequest, active, running,
}
use odyshell.Protocol.Policy.{LocalPolicy}
use odyshell.Protocol.Messages.{session_opened, session_closed, command_output, stdout}
use odyshell.Protocol.Session.{default_command_output_bytes}
use odyshell.Server.Store.{
  SessionRow, CommandRow, AuditEvent, MachineAuthority, operator, standard, session_requested,
  owner,
}
use odyshell.Server.Store.Sessions.{approve}
use odyshell.Server.Store.Endings.{cancel}
use odyshell.Server.Store.Lifecycle.{Continues, has_id}
use odyshell.Server.Store.Lifecycle.Methods.{HasUniqueIds}
use odyshell.Server.Service.World.{World}
use odyshell.Server.Service.Client.{SessionClient, gateway_client}
use odyshell.Server.Service.Principal.{AgentPrincipal, Digest}
use odyshell.Server.Service.Supervision.{SupervisorPrincipal}
use odyshell.Server.Service.Principal.{is_operator}
use odyshell.Server.Service.SessionRequests.{admission, admitted}
use odyshell.Server.Service.Admission.{admission-eq-admitted}
use odyshell.Server.Service.CommandRequests.{clearance, cleared}
use odyshell.Server.Service.CommandRequests.Clearing.{Clears, clearance-eq-cleared}
use odyshell.Server.Store.Sessions.{session}
use odyshell.Base.{select, All, update, remove}
use odyshell.Protocol.Decision.{command_decision}
use odyshell.Server.Store.{log}
use odyshell.Server.Store.Commands.{count_active_commands, command_by_idempotency, create_command}
use odyshell.Server.System.Steps.{step}
use odyshell.Server.System.Hooks.{sweep, close_sessions}
use odyshell.Server.Store.Endings.{expire_sessions, cancel_commands}
use odyshell.Server.Service.CommandRequests.{command_fingerprint, start_cleared}
use odyshell.Protocol.Session.{pending_approval, CommandStatus}
use odyshell.Server.Store.Authorities.{machine_authority}
use odyshell.Server.Store.Reconnect.{ReconnectState, session_reconnect_messages}
use odyshell.Server.Store.Reconnect.Order.{
  IsOrdered, IsOpened, session_reconnect_messages-IsOrdered, session_reconnect_messages-IsOpened,
}
use odyshell.Server.Service.SessionRequests.{request_session}
use odyshell.Server.Store.Reports.{OutputReport, add_command_output}
use odyshell.Server.Store.Reports.Repetition.{add_command_output_twice}
use odyshell.Server.System.Limits.{KeepsLimits}
use odyshell.Server.System.Interleaving.{
  Await, acts, checks, stores, waiting, drop_at, await_all, await_all-KeepsLimits,
}
use odyshell.Server.System.Transitions.{lets_run}
use odyshell.Server.System.Hooks.{MachineContext}
use odyshell.Server.System.Steps.{Action, requests, supervises, finishes, reports, sweeps, run}
use odyshell.Server.System.Lifecycle.{run-Continues, run-is_finished}
use odyshell.Server.System.Supervision.{IsSupervised, run-IsSupervised}
use odyshell.Server.System.Stored.{run-stored}
use odyshell.Server.System.Stored.Bytes.{stored, taken}

abbrev policy : LocalPolicy
policy = record {
  organization_id = "org";
  max_session_duration_seconds = 7200;
  max_concurrent_sessions = 2;
  max_concurrent_commands = 2;
  max_command_timeout_seconds = 600;
  max_command_output_bytes = 4096;
  allow_remote_approval = true;
}

abbrev machine : MachineAuthority
machine = record {
  organization_id = "org";
  machine_id = "m1";
  client_profile_id = "p1";
  operating_system_user = "dev";
  online = true;
  local_policy = policy;
}

abbrev running_session : Session
running_session = record {
  id = "s1";
  organization_id = "org";
  agent_id = "a1";
  machine_id = "m1";
  client_profile_id = "p1";
  operating_system_user = "dev";
  title = "deploy";
  purpose = none;
  status = active;
  max_concurrent_commands = 2;
  created_at = 1000;
  ready_at = some 2000;
  expires_at = 3601000;
  finished_at = none;
}

abbrev running_row : SessionRow
running_row = record {
  session = running_session;
  idempotency_key_hash = "k1";
  request_fingerprint = "f1";
}

abbrev closed_row : SessionRow
closed_row = record {
  session = record running_session {
    id = "s0";
    status = SessionStatus.completed;
    finished_at = some 900;
  };
  idempotency_key_hash = "k0";
  request_fingerprint = "f0";
}

abbrev running_command : Command
running_command = record {
  id = "c1";
  session_id = "s1";
  organization_id = "org";
  agent_id = "a1";
  machine_id = "m1";
  command = "ls";
  cwd = none;
  timeout_seconds = 60;
  status = running;
  created_at = 2500;
  started_at = some 2600;
  finished_at = none;
  exit_code = none;
  output_truncated = false;
  stdout_bytes = 10;
  stderr_bytes = 0;
  error = none;
}

abbrev command_row : CommandRow
command_row = record {
  command_record = running_command;
  idempotency_key_hash = "ck1";
  request_fingerprint = "cf1";
}

abbrev requested : AuditEvent
requested = record {
  organization_id = "org";
  agent_id = "a1";
  session_id = "s1";
  command_id = none;
  event = session_requested "m1" "p1" "dev" 3600 operator;
}

abbrev start : World
start = record {
  store = record {
    authorities = machine ∷ [];
    sessions = running_row ∷ closed_row ∷ [];
    commands = command_row ∷ [];
    events = requested ∷ [];
    chunks = [];
    retention = 86400000;
    audit_open = true;
  };
  sent = [];
}

abbrev client : SessionClient
client = gateway_client (λ m. true) 3000

abbrev digest : Digest
digest = record {
  hash = λ s. s;
  stringify_session = λ o a r. r.title;
  stringify_command = λ o a s r. r.command;
}

abbrev connected : String → Bool
connected m = true

abbrev whole : String → String
whole s = s

abbrev agent : AgentPrincipal
agent = record { organization_id = "org"; agent_id = "a1"; agent_role = operator }

abbrev newcomer : AgentPrincipal
newcomer = record { organization_id = "org"; agent_id = "a2"; agent_role = standard }

abbrev wish : SessionRequest
wish = record { machine_id = "m1"; title = "look"; purpose = none; duration_seconds = 900 }

abbrev context : MachineContext
context = record { organization_id = "org"; machine_id = "m1" }

abbrev supervisor : SupervisorPrincipal
supervisor = record { organization_id = "org"; human_id = "h1"; role = owner }

-- A second Session is asked for and approved, the first Command writes, and the first Session ends.
abbrev history : List Action
history =
    requests newcomer wish "k2" "s2" 4000
    ∷ supervises supervisor "s2" approve 5000
    ∷ reports context (session_opened "s2" "p1" "dev") 5500
    ∷ reports context (command_output "c1" 0 stdout (104 ∷ 105 ∷ [])) 6000
    ∷ finishes agent "s1" cancel 7000
    ∷ reports context (session_closed "s1" "cancelled") 8000
    ∷ []

abbrev end : World
end = run client digest connected whole history start

start-HasUniqueIds : HasUniqueIds start.store
unfolding any string_discrete
start-HasUniqueIds = (refl, (refl, tt))

run-Continues_example : Continues "s1" start.store.sessions end.store.sessions
run-Continues_example =
    run-Continues client digest connected whole "s1" history start start-HasUniqueIds

run-is_finished_example :
    (later : SessionRow) × (find (has_id "s0") end.store.sessions ≡ some later)
    × (later.status ≡ SessionStatus.completed)
unfolding find string_discrete
run-is_finished_example =
    run-is_finished client digest connected whole "s0" history start closed_row start-HasUniqueIds
      refl refl

-- No Session is live, and the audit fails throughout.
abbrev rested : World
rested = record start {
  store = record start.store { sessions = closed_row ∷ []; commands = []; audit_open = false };
}

run-IsSupervised_example :
    IsSupervised
      (λ i. any (lets_run i) history)
      (run client digest connected whole history rested).store
run-IsSupervised_example = run-IsSupervised client digest connected whole history rested (refl, tt)

run-stored_example :
    (stored "org" "c1" end.store.chunks ≤ taken "org" "c1" end.store.commands)
    × (stored "org" "c1" end.store.chunks ≤ default_command_output_bytes)
unfolding any string_discrete stored
run-stored_example =
    run-stored client digest connected whole history start "org" "c1"
      ((refl, tt), (omega arith, tt)) (λ o i. omega arith)

admission-eq-admitted_example : (admission newcomer wish 1 (some machine) ≡ admitted machine) ↔ (
    (some machine ≡ some machine)
    × (machine.organization_id ≡ newcomer.organization_id)
    × (machine.online ≡ true)
    × (machine.local_policy.organization_id ≡ newcomer.organization_id)
    × (wish.duration_seconds ≤ machine.local_policy.max_session_duration_seconds)
    × (1 < machine.local_policy.max_concurrent_sessions)
    × (1 ≤ machine.local_policy.max_concurrent_commands)
    × ((is_operator newcomer.agent_role || machine.local_policy.allow_remote_approval) ≡ true))
admission-eq-admitted_example = admission-eq-admitted newcomer wish 1 (some machine) machine

abbrev task : CommandRequest
task = record { command = "pwd"; cwd = none; timeout_seconds = 60 }

clearance-eq-cleared_example :
    (clearance agent "s1" task 3000 start.store ≡ cleared running_session 60)
    ↔ Clears start.store agent task 3000
        (session start.store agent.organization_id "s1")
        running_session
        60
clearance-eq-cleared_example =
    clearance-eq-cleared start.store agent "s1" task 3000 running_session 60

abbrev begun : Session
begun = record {
  id = "s2";
  organization_id = "org";
  agent_id = "a2";
  machine_id = "m1";
  client_profile_id = "p1";
  operating_system_user = "dev";
  title = "look";
  purpose = none;
  status = pending_approval;
  max_concurrent_commands = 2;
  created_at = 4000;
  ready_at = none;
  expires_at = 904000;
  finished_at = none;
}

abbrev after_request : World
after_request = (request_session client digest newcomer wish "k2" "s2" 4000 start).0

abbrev reconnecting : ReconnectState
reconnecting = record {
  sessions =
      running_session
      ∷ record running_session { id = "s3"; status = SessionStatus.cancellation_requested }
      ∷ [];
  commands =
      running_command
      ∷ record running_command {
        id = "c3";
        session_id = "s3";
        status = CommandStatus.cancellation_requested;
      }
      ∷ [];
}

session_reconnect_messages-IsOrdered_example :
    IsOrdered (session_reconnect_messages reconnecting 9000)
session_reconnect_messages-IsOrdered_example =
    session_reconnect_messages-IsOrdered reconnecting 9000

session_reconnect_messages-IsOpened_example :
    (let messages = session_reconnect_messages reconnecting 9000 in
      All (IsOpened messages) messages)
session_reconnect_messages-IsOpened_example = session_reconnect_messages-IsOpened reconnecting 9000

abbrev written : OutputReport
written = record {
  organization_id = "org";
  machine_id = "m1";
  command_id = "c1";
  stream = stdout;
  sequence = 0;
  bytes = 104 ∷ 105 ∷ [];
}

add_command_output_twice_example :
    (let stored = (add_command_output written 6000 start.store).0 in
      (add_command_output written 6500 stored).0 ≡ stored)
unfolding add_command_output find any string_discrete
add_command_output_twice_example = add_command_output_twice written 6000 6500 start.store refl

-- Two calls for the Session `s1`, which has one active Command of the two that it was granted.
abbrev two_calls : List Await
two_calls =
    checks agent "s1" task "k7" 3000
    ∷ checks agent "s1" task "k8" 3000
    ∷ acts (sweeps 3001)
    ∷ stores 1 "c7" 3002
    ∷ stores 0 "c8" 3003
    ∷ []

-- Where both calls may wait at once, three Commands are active.
raced :
    count_active_commands
      (await_all client digest connected whole 1 two_calls
        (record { world = start; calls = [] })).world.store
      "org"
      "s1"
    ≡ 3
unfolding await_all count_active_commands waiting drop_at any select find update remove
    string_discrete start_cleared clearance session machine_authority command_by_idempotency
    command_decision create_command command_fingerprint log step sweep expire_sessions
    cancel_commands close_sessions gateway_client
raced = refl

await_all-KeepsLimits_example :
    (let later =
        await_all client digest connected whole 0 two_calls
          (record { world = start; calls = [] }) in
      KeepsLimits
        (λ i. waiting i later.calls)
        0
        later.world.store.sessions
        later.world.store.commands)
unfolding any select string_discrete
await_all-KeepsLimits_example =
    await_all-KeepsLimits client digest connected whole 0 two_calls start
      (start-HasUniqueIds, (refl, tt), (refl, tt), (omega arith, (omega arith, tt)))
