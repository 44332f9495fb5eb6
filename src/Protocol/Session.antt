-- ===== src/Protocol/Session.antt =====
-- packages/protocol/src/session.ts: Sessions, Commands and the requests for them.
use odyshell.Base.{ℕ, ◌*◌, ◌-◌, Bool, not, ◌||◌, Option, none, some, String}
use odyshell.Base.{leb, ltb, eqb}

abbrev pub max_session_duration_seconds : ℕ
max_session_duration_seconds = 24 * 60 * 60

abbrev pub default_command_timeout_seconds : ℕ
default_command_timeout_seconds = 10 * 60

abbrev pub max_command_timeout_seconds : ℕ
max_command_timeout_seconds = max_session_duration_seconds

abbrev pub default_command_output_bytes : ℕ
default_command_output_bytes = 1024 * 1024

abbrev pub max_command_output_bytes : ℕ
max_command_output_bytes = 16 * 1024 * 1024

-- The durations that a request may ask for.
unfoldable pub is_session_duration : ℕ → Bool
is_session_duration d =
    eqb d (15 * 60)
    || eqb d (60 * 60)
    || eqb d (2 * 60 * 60)
    || eqb d (6 * 60 * 60)
    || eqb d (8 * 60 * 60)
    || eqb d (24 * 60 * 60)

pub data SessionStatus : Type 0 where
  pending_approval opening active completed cancellation_requested : SessionStatus
  cancelled revoked expired failed : SessionStatus

pub data CommandStatus : Type 0 where
  queued delivered running cancellation_requested : CommandStatus
  succeeded failed cancelled timed_out execution_unknown : CommandStatus

-- The statuses that `command.completed` may report.
pub data CompletedStatus : Type 0 where
  succeeded failed cancelled timed_out execution_unknown : CompletedStatus

abbrev pub command_status : CompletedStatus → CommandStatus
command_status CompletedStatus.succeeded = CommandStatus.succeeded
command_status CompletedStatus.failed = CommandStatus.failed
command_status CompletedStatus.cancelled = CommandStatus.cancelled
command_status CompletedStatus.timed_out = CommandStatus.timed_out
command_status CompletedStatus.execution_unknown = CommandStatus.execution_unknown

-- An exit code may be negative; `negsuc n` is -(n + 1).
pub data ℤ : Type 0 where
  pos : ℕ → ℤ
  negsuc : ℕ → ℤ

pub record SessionRequest : Type 0 where
  pub machine_id : String
  pub title : String
  pub purpose : Option String
  pub duration_seconds : ℕ

pub record Session : Type 0 where
  pub id : String
  pub organization_id : String
  pub agent_id : String
  pub machine_id : String
  pub client_profile_id : String
  pub operating_system_user : String
  pub title : String
  pub purpose : Option String
  pub status : SessionStatus
  pub max_concurrent_commands : ℕ
  pub created_at : ℕ
  pub ready_at : Option ℕ
  pub expires_at : ℕ
  pub finished_at : Option ℕ

abbrev pub or_else : Option ℕ → ℕ → ℕ
or_else none n = n
or_else (some m) n = m

-- The `superRefine` of `sessionSchema`.
unfoldable pub session_times_hold : Session → Bool
session_times_hold s =
    let ready_at = or_else s.ready_at s.created_at in
    not (
      ltb ready_at s.created_at
      || leb s.expires_at ready_at
      || ltb (max_session_duration_seconds * 1000) (s.expires_at - ready_at))

pub record CommandRequest : Type 0 where
  pub command : String
  pub cwd : Option String
  pub timeout_seconds : ℕ

pub record Command : Type 0 where
  pub id : String
  pub session_id : String
  pub organization_id : String
  pub agent_id : String
  pub machine_id : String
  pub command : String
  pub cwd : Option String
  pub timeout_seconds : ℕ
  pub status : CommandStatus
  pub created_at : ℕ
  pub started_at : Option ℕ
  pub finished_at : Option ℕ
  pub exit_code : Option ℤ
  pub output_truncated : Bool
  pub stdout_bytes : ℕ
  pub stderr_bytes : ℕ
  pub error : Option String
