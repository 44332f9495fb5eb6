-- ===== src/Server/Service/Principal.antt =====
-- apps/server/src/sessions.ts: who asks, and the digests that tell requests apart.
use odyshell.Base.{Bool, true, false, String}
use odyshell.Protocol.Session.{SessionRequest, CommandRequest}
use odyshell.Server.Store.{AgentRole, standard, operator}

pub record AgentPrincipal : Type 0 where
  pub organization_id : String
  pub agent_id : String
  pub agent_role : AgentRole

-- `createHash("sha256")` and `JSON.stringify` on the objects that the service fingerprints.
pub record Digest : Type 0 where
  pub hash : String → String
  pub stringify_session : (organization_id agent_id : String) → SessionRequest → String
  pub stringify_command : (organization_id agent_id session_id : String) → CommandRequest → String

abbrev pub is_operator : AgentRole → Bool
is_operator operator = true
is_operator standard = false
