-- ===== src/Protocol/Tests.antt =====
-- The decisions on concrete inputs.
use odyshell.Base.{◌+◌, ◌*◌, ◌≤◌, ◌<◌, none, some, ◌≡◌, ◌↔◌, true}
use odyshell.Protocol.Session.{Session, CommandRequest, active}
use odyshell.Protocol.Policy.{
  LocalPolicy, LocalSessionInput, LocalSessionDecision, local_session_decision,
}
use odyshell.Protocol.Decision.{
  allowed, command_decision, command_decision-eq-allowed, local_session_decision-eq-allowed,
}

abbrev policy : LocalPolicy
policy = record {
  organization_id = "org";
  max_session_duration_seconds = 7200;
  max_concurrent_sessions = 2;
  max_concurrent_commands = 2;
  max_command_timeout_seconds = 600;
  max_command_output_bytes = 4096;
  allow_remote_approval = true;
}

abbrev session : Session
session = record {
  id = "s1";
  organization_id = "org";
  agent_id = "a1";
  machine_id = "m1";
  client_profile_id = "p1";
  operating_system_user = "dev";
  title = "deploy";
  purpose = none;
  status = active;
  max_concurrent_commands = 2;
  created_at = 1000;
  ready_at = some 2000;
  expires_at = 3601000;
  finished_at = none;
}

abbrev request : CommandRequest
request = record { command = "ls"; cwd = none; timeout_seconds = 60 }

abbrev input : LocalSessionInput
input = record {
  organization_id = "org";
  duration_seconds = 3600;
  active_sessions = 1;
  max_concurrent_commands = 2;
}

command_decision-eq-allowed_example :
    (command_decision session request policy 3000 ≡ allowed 60) ↔ (
      (session.status ≡ active)
      × (3000 + 1000 ≤ session.expires_at)
      × (request.timeout_seconds ≤ policy.max_command_timeout_seconds)
      × (3000 + 1000 * request.timeout_seconds ≤ session.expires_at)
      × (60 ≡ request.timeout_seconds))
command_decision-eq-allowed_example = command_decision-eq-allowed session request policy 3000 60

local_session_decision-eq-allowed_example :
    (local_session_decision policy input ≡ LocalSessionDecision.allowed) ↔ (
      (input.organization_id ≡ policy.organization_id)
      × (input.duration_seconds ≤ policy.max_session_duration_seconds)
      × (input.active_sessions < policy.max_concurrent_sessions)
      × (input.max_concurrent_commands ≤ policy.max_concurrent_commands))
local_session_decision-eq-allowed_example = local_session_decision-eq-allowed policy input
