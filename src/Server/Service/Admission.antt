-- ===== src/Server/Service/Admission.antt =====
-- apps/server/src/sessions.ts: exactly when a Session is granted.
use odyshell.Base.{ℕ, ◌≤◌, ◌<◌, true, ◌||◌, Option, some, ◌≡◌, ◌↔◌, arith}
use odyshell.Protocol.Session.{SessionRequest}
use odyshell.Server.Store.{MachineAuthority}
use odyshell.Server.Service.Principal.{AgentPrincipal, is_operator}
use odyshell.Server.Service.SessionRequests.{admission, admitted}

-- A Session is admitted exactly when its Machine is known, belongs to the Agent's Organization, is
-- online, its Local Policy names that Organization and allows the duration, one more Session and at
-- least one Command, and the Agent is an operator or the Local Policy allows remote approval.
pub admission-eq-admitted :
    (principal : AgentPrincipal) (request : SessionRequest) (active_sessions : ℕ)
    (found : Option MachineAuthority) (machine : MachineAuthority)
    → (admission principal request active_sessions found ≡ admitted machine) ↔ (
        (found ≡ some machine)
        × (machine.organization_id ≡ principal.organization_id)
        × (machine.online ≡ true)
        × (machine.local_policy.organization_id ≡ principal.organization_id)
        × (request.duration_seconds ≤ machine.local_policy.max_session_duration_seconds)
        × (active_sessions < machine.local_policy.max_concurrent_sessions)
        × (1 ≤ machine.local_policy.max_concurrent_commands)
        × ((is_operator principal.agent_role || machine.local_policy.allow_remote_approval) ≡ true))
unfolding admission
admission-eq-admitted principal request active_sessions found machine = ground arith
