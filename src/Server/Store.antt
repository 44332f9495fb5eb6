-- ===== src/Server/Store.antt =====
-- apps/server/src/session-database.ts: the tables of `PostgresSessionDatabase`. A table is the list
-- of its rows, the newest first; each query is read as its SQL meaning over that list, and each
-- method is one atomic step, as its transaction is. `updatedAt` is written and never read, and left out.
pub mod Authorities
pub mod Sessions
pub mod Commands
pub mod Reports
pub mod Endings
pub mod Reconnect
pub mod Lifecycle
use odyshell.Base.{
  ℕ, Bool, true, false, ◌&&◌, Option, none, some, List, [], ◌∷◌, String, ◌==◌, any, if◌then◌else◌,
}
use odyshell.Protocol.Session.{
  SessionStatus, Session, CommandStatus, Command, ℤ, pending_approval, opening, active, queued,
  delivered, running,
}
use odyshell.Protocol.Policy.{LocalPolicy}
use odyshell.Protocol.Messages.{OutputStream}

pub record MachineAuthority : Type 0 where
  pub organization_id : String
  pub machine_id : String
  pub client_profile_id : String
  pub operating_system_user : String
  pub online : Bool
  pub local_policy : LocalPolicy

pub record SessionRow : Type 0 where
  pub session : Session
  pub open session use *
  pub idempotency_key_hash : String
  pub request_fingerprint : String

pub record CommandRow : Type 0 where
  pub command_record : Command
  pub open command_record use *
  pub idempotency_key_hash : String
  pub request_fingerprint : String

pub data AgentRole : Type 0 where
  standard operator : AgentRole

pub data HumanRole : Type 0 where
  owner admin supervisor : HumanRole

-- The type of an audit event with the metadata that the code gives it; the role that
-- `session.requested` names also fixes its `approval`.
pub data AuditType : Type 0 where
  session_requested :
      (machine_id client_profile_id operating_system_user : String) (duration_seconds : ℕ)
      → AgentRole
      → AuditType
  session_opened : (machine_id client_profile_id operating_system_user : String) → AuditType
  session_open_failed : (error : String) → AuditType
  session_approved session_denied : (human_id : String) → HumanRole → AuditType
  session_closed : (reason : String) → AuditType
  command_created :
      (machine_id command : String) (cwd : Option String) (timeout_seconds : ℕ) → AuditType
  command_completed :
      CommandStatus
      → Option ℤ
      → (output_truncated : Bool) (stdout_bytes stderr_bytes : ℕ) → AuditType

pub record AuditEvent : Type 0 where
  pub organization_id : String
  pub agent_id : String
  pub session_id : String
  pub command_id : Option String
  pub event : AuditType

pub record OutputChunk : Type 0 where
  pub organization_id : String
  pub command_id : String
  pub sequence : ℕ
  pub stream : OutputStream
  pub bytes : List ℕ
  pub expires_at : ℕ

-- `retention` is the class's `commandOutputRetentionMilliseconds`.
pub record Store : Type 0 where
  pub authorities : List MachineAuthority
  pub sessions : List SessionRow
  pub commands : List CommandRow
  pub events : List AuditEvent
  pub chunks : List OutputChunk
  pub retention : ℕ
  pub audit_open : Bool

-- `ACTIVE_SESSION_STATUSES`
abbrev pub is_active_session : SessionStatus → Bool
is_active_session pending_approval = true
is_active_session opening = true
is_active_session active = true
is_active_session _ = false

abbrev pub is_pending : SessionStatus → Bool
is_pending pending_approval = true
is_pending _ = false

abbrev pub is_opening : SessionStatus → Bool
is_opening opening = true
is_opening _ = false

-- The statuses under which a Client may hold authority for the Session.
abbrev pub is_live : SessionStatus → Bool
is_live opening = true
is_live active = true
is_live _ = false

abbrev pub is_closable : SessionStatus → Bool
is_closable opening = true
is_closable active = true
is_closable SessionStatus.cancellation_requested = true
is_closable _ = false

abbrev pub is_finished : SessionStatus → Bool
is_finished SessionStatus.completed = true
is_finished SessionStatus.cancelled = true
is_finished SessionStatus.revoked = true
is_finished SessionStatus.expired = true
is_finished SessionStatus.failed = true
is_finished _ = false

-- `ACTIVE_COMMAND_STATUSES`
abbrev pub is_active_command : CommandStatus → Bool
is_active_command queued = true
is_active_command delivered = true
is_active_command running = true
is_active_command CommandStatus.cancellation_requested = true
is_active_command _ = false

abbrev pub is_undelivered : CommandStatus → Bool
is_undelivered queued = true
is_undelivered delivered = true
is_undelivered _ = false

abbrev pub change : (Session → Session) → SessionRow → SessionRow
change f r = record r { session = f r.session }

abbrev pub change_command : (Command → Command) → CommandRow → CommandRow
change_command f r = record r { command_record = f r.command_record }

abbrev pub session_key : String → String → SessionRow → Bool
session_key organization_id session_id r =
    r.organization_id == organization_id && r.id == session_id

abbrev pub command_key : String → String → CommandRow → Bool
command_key organization_id command_id r =
    r.organization_id == organization_id && r.id == command_id

-- The audit of the service, which fails where the table takes no event.
unfoldable pub log : AuditEvent → Store → Store
log event st = record st { events = if st.audit_open then event ∷ st.events else st.events }

unfoldable pub append : AuditEvent → Store → Store
append event st = record st { events = event ∷ st.events }
