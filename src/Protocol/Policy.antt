-- ===== src/Protocol/Policy.antt =====
-- packages/protocol/src/session.ts: the Local Policy of a Machine, and its decision on a Session.
use odyshell.Base.{ℕ, Bool, not, ◌&&◌, String, leb, ltb, ◌==◌, if◌then◌else◌}
use odyshell.Protocol.Session.{
  max_session_duration_seconds, max_command_timeout_seconds, max_command_output_bytes,
}

pub record LocalPolicy : Type 0 where
  pub organization_id : String
  pub max_session_duration_seconds : ℕ
  pub max_concurrent_sessions : ℕ
  pub max_concurrent_commands : ℕ
  pub max_command_timeout_seconds : ℕ
  pub max_command_output_bytes : ℕ
  pub allow_remote_approval : Bool

abbrev between : ℕ → ℕ → ℕ → Bool
between lo hi n = leb lo n && leb n hi

-- The bounds of `localPolicySchema`.
unfoldable pub local_policy_holds : LocalPolicy → Bool
local_policy_holds p =
    between 60 max_session_duration_seconds p.max_session_duration_seconds
    && between 1 32 p.max_concurrent_sessions
    && between 1 16 p.max_concurrent_commands
    && between 1 max_command_timeout_seconds p.max_command_timeout_seconds
    && between 1024 max_command_output_bytes p.max_command_output_bytes

pub data SessionDenial : Type 0 where
  organization_denied duration_denied : SessionDenial
  session_concurrency_denied command_concurrency_denied : SessionDenial

pub data LocalSessionDecision : Type 0 where
  allowed : LocalSessionDecision
  denied : SessionDenial → LocalSessionDecision

-- What `localSessionDecision` is asked. `Math.ceil` of a negative duration is below every bound, as
-- is the 0 that stands for it here.
pub record LocalSessionInput : Type 0 where
  pub organization_id : String
  pub duration_seconds : ℕ
  pub active_sessions : ℕ
  pub max_concurrent_commands : ℕ

unfoldable pub local_session_decision : LocalPolicy → LocalSessionInput → LocalSessionDecision
local_session_decision policy input =
    if not (input.organization_id == policy.organization_id)
    then denied organization_denied
    else if ltb policy.max_session_duration_seconds input.duration_seconds
    then denied duration_denied
    else if leb policy.max_concurrent_sessions input.active_sessions
    then denied session_concurrency_denied
    else if ltb policy.max_concurrent_commands input.max_concurrent_commands
    then denied command_concurrency_denied
    else allowed
