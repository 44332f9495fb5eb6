-- ===== src/Protocol/Messages.antt =====
-- packages/protocol/src/session.ts: what Server and Client tell one another about Sessions.
use odyshell.Base.{ℕ, Bool, String, Option, List}
use odyshell.Protocol.Session.{CompletedStatus, ℤ}

pub data OutputStream : Type 0 where
  stdout stderr : OutputStream

pub record SessionOpen : Type 0 where
  pub session_id : String
  pub organization_id : String
  pub agent_id : String
  pub client_profile_id : String
  pub expires_at : ℕ
  pub max_concurrent_commands : ℕ
  pub server_time : ℕ

pub record CommandStart : Type 0 where
  pub command_id : String
  pub session_id : String
  pub command : String
  pub cwd : Option String
  pub timeout_seconds : ℕ
  pub max_output_bytes : ℕ

pub data ServerMessage : Type 0 where
  session_open : SessionOpen → ServerMessage
  session_close : (session_id reason : String) → ServerMessage
  command_start : CommandStart → ServerMessage
  command_cancel : (command_id : String) → ServerMessage
  command_acknowledged : (command_id : String) → ServerMessage

pub record CommandCompleted : Type 0 where
  pub command_id : String
  pub status : CompletedStatus
  pub exit_code : Option ℤ
  pub error : Option String
  pub output_truncated : Bool
  pub at : ℕ

-- The bytes of an output message are those that its base64 text stands for.
pub data ClientMessage : Type 0 where
  session_opened : (session_id client_profile_id operating_system_user : String) → ClientMessage
  session_open_failed : (session_id error : String) → ClientMessage
  session_closed : (session_id reason : String) → ClientMessage
  command_started : (command_id : String) (at : ℕ) → ClientMessage
  command_output :
      (command_id : String) (sequence : ℕ) (stream : OutputStream) (bytes : List ℕ) → ClientMessage
  command_completed : CommandCompleted → ClientMessage
