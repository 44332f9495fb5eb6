-- ===== src/Protocol/Decision.antt =====
-- packages/protocol/src/session.ts: whether a Command may start in a Session.
use odyshell.Base.{
  ℕ, ◌+◌, ◌-◌, ◌*◌, ◌/◌, ◌≤◌, ◌<◌, ◌≡◌, ◌↔◌, Bool, true, false, not, arith, leb, ltb, if◌then◌else◌,
}
use odyshell.Protocol.Session.{SessionStatus, Session, CommandRequest, active}
use odyshell.Protocol.Policy.{
  LocalPolicy, LocalSessionInput, LocalSessionDecision, local_session_decision,
}

pub data CommandDenial : Type 0 where
  session_not_active session_expired : CommandDenial
  timeout_exceeds_session timeout_exceeds_local_policy : CommandDenial

pub data CommandDecision : Type 0 where
  allowed : (timeout_seconds : ℕ) → CommandDecision
  denied : CommandDenial → CommandDecision

abbrev pub is_active : SessionStatus → Bool
is_active active = true
is_active _ = false

-- `Math.floor((expiresAt - now) / 1000)`; a negative quotient is 0 here, and both are refused.
abbrev pub remaining_seconds : Session → ℕ → ℕ
remaining_seconds session now = (session.expires_at - now) / 1000

unfoldable pub command_decision : Session → CommandRequest → LocalPolicy → ℕ → CommandDecision
command_decision session command policy now =
    if not (is_active session.status)
    then denied session_not_active
    else if leb (remaining_seconds session now) 0
    then denied session_expired
    else if ltb policy.max_command_timeout_seconds command.timeout_seconds
    then denied timeout_exceeds_local_policy
    else if ltb (remaining_seconds session now) command.timeout_seconds
    then denied timeout_exceeds_session
    else allowed command.timeout_seconds

-- A Command is allowed exactly when the Session is active, at least one whole second of it is left,
-- and the timeout that was asked for keeps to the Local Policy and ends within the Session; the
-- timeout granted is the one that was asked for.
pub command_decision-eq-allowed :
    (session : Session) (command : CommandRequest) (policy : LocalPolicy) (now t : ℕ)
    → (command_decision session command policy now ≡ allowed t) ↔ (
        (session.status ≡ active)
        × (now + 1000 ≤ session.expires_at)
        × (command.timeout_seconds ≤ policy.max_command_timeout_seconds)
        × (now + 1000 * command.timeout_seconds ≤ session.expires_at)
        × (t ≡ command.timeout_seconds))
unfolding command_decision
command_decision-eq-allowed session command policy now t = ground arith

-- The Local Policy allows a Session exactly when it names the same Organization, its duration and
-- its Command limit stay within the policy's, and one more Session fits.
pub local_session_decision-eq-allowed :
    (policy : LocalPolicy) (input : LocalSessionInput)
    → (local_session_decision policy input ≡ LocalSessionDecision.allowed) ↔ (
        (input.organization_id ≡ policy.organization_id)
        × (input.duration_seconds ≤ policy.max_session_duration_seconds)
        × (input.active_sessions < policy.max_concurrent_sessions)
        × (input.max_concurrent_commands ≤ policy.max_concurrent_commands))
unfolding local_session_decision
local_session_decision-eq-allowed policy input = ground arith
