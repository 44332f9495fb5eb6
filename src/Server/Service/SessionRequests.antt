-- ===== src/Server/Service/SessionRequests.antt =====
-- apps/server/src/sessions.ts: `requestSession`, as a call that no other overlaps. Its audit may fail
-- after the Session is stored.
pub mod Effects
pub mod Replay
use odyshell.Base.{
  ℕ, ◌+◌, ◌*◌, Bool, true, false, not, ◌&&◌, Option, none, some, String, ◌==◌, if◌then◌else◌, ltb,
  leb,
}
use odyshell.Protocol.Session.{SessionRequest, Session, SessionStatus, pending_approval, opening}
use odyshell.Server.Store.{
  MachineAuthority, SessionRow, AgentRole, standard, operator, session_requested, is_opening,
}
use odyshell.Server.Store.Authorities.{machine_authority}
use odyshell.Server.Store.Sessions.{
  Stored, count_active_sessions, session_by_idempotency, create_session,
}
use odyshell.Server.Service.World.{M, pure, ◌>>=◌, ◌>>◌, query, on_store, audit, when}
use odyshell.Server.Service.Client.{SessionClient}
use odyshell.Server.Service.Principal.{AgentPrincipal, Digest, is_operator}

pub data SessionRefusal : Type 0 where
  machine_not_found machine_offline organization_denied supervision_denied : SessionRefusal
  duration_denied session_concurrency_denied command_concurrency_denied : SessionRefusal
  idempotency_conflict : SessionRefusal

pub data RequestSessionResult : Type 0 where
  created replayed : Session → RequestSessionResult
  denied : SessionRefusal → RequestSessionResult

pub data Admission : Type 0 where
  admitted : MachineAuthority → Admission
  refused : SessionRefusal → Admission

-- The checks of `requestSession`, in their order.
unfoldable pub admission : AgentPrincipal → SessionRequest → ℕ → Option MachineAuthority → Admission
admission principal request active_sessions none = refused machine_not_found
admission principal request active_sessions (some machine) =
    if not (machine.organization_id == principal.organization_id)
    then refused organization_denied
    else if not machine.online
    then refused machine_offline
    else if not (machine.local_policy.organization_id == principal.organization_id)
    then refused organization_denied
    else if ltb machine.local_policy.max_session_duration_seconds request.duration_seconds
    then refused duration_denied
    else if leb machine.local_policy.max_concurrent_sessions active_sessions
    then refused session_concurrency_denied
    else if ltb machine.local_policy.max_concurrent_commands 1
    then refused command_concurrency_denied
    else if not (is_operator principal.agent_role) && not machine.local_policy.allow_remote_approval
    then refused supervision_denied
    else admitted machine

abbrev pub first_status : AgentRole → SessionStatus
first_status operator = opening
first_status standard = pending_approval

abbrev pub new_session : AgentPrincipal → SessionRequest → MachineAuthority → String → ℕ → Session
new_session principal request machine fresh now = record {
  id = fresh;
  organization_id = principal.organization_id;
  agent_id = principal.agent_id;
  machine_id = request.machine_id;
  client_profile_id = machine.client_profile_id;
  operating_system_user = machine.operating_system_user;
  title = request.title;
  purpose = request.purpose;
  status = first_status principal.agent_role;
  max_concurrent_commands = machine.local_policy.max_concurrent_commands;
  created_at = now;
  ready_at = none;
  expires_at = now + request.duration_seconds * 1000;
  finished_at = none;
}

abbrev replay_request : String → SessionRow → RequestSessionResult
replay_request fingerprint row =
    if row.request_fingerprint == fingerprint
    then RequestSessionResult.replayed row.session
    else RequestSessionResult.denied SessionRefusal.idempotency_conflict

-- `fresh` is the `randomUUID()` of the call.
module _ (client : SessionClient) (digest : Digest) where
  unfoldable pub session_fingerprint : AgentPrincipal → SessionRequest → String
  session_fingerprint principal request =
      digest.hash (digest.stringify_session principal.organization_id principal.agent_id request)

  announce_session : AgentPrincipal → SessionRequest → Session → M RequestSessionResult
  announce_session principal request s = do
    audit (record {
      organization_id = s.organization_id;
      agent_id = s.agent_id;
      session_id = s.id;
      command_id = none;
      event =
          session_requested s.machine_id s.client_profile_id s.operating_system_user
            request.duration_seconds principal.agent_role;
    })
    when (is_opening s.status) (client.open_session s)
    pure (RequestSessionResult.created s)

  stored_session :
      AgentPrincipal → SessionRequest → Session → Stored Session → M RequestSessionResult
  unfolding announce_session
  stored_session principal request s Stored.idempotency_conflict =
      pure (RequestSessionResult.denied SessionRefusal.idempotency_conflict)
  stored_session principal request s (Stored.replayed old) =
      pure (RequestSessionResult.replayed old)
  stored_session principal request s (Stored.created _) = announce_session principal request s

  open_admitted :
      AgentPrincipal → SessionRequest → String → String → ℕ → Admission → M RequestSessionResult
  unfolding stored_session session_fingerprint
  open_admitted principal request key_hash fresh now (refused code) =
      pure (RequestSessionResult.denied code)
  open_admitted principal request key_hash fresh now (admitted machine) =
      let s = new_session principal request machine fresh now in
      do
        stored ← on_store (
            create_session (record {
              session = s;
              idempotency_key_hash = key_hash;
              request_fingerprint = session_fingerprint principal request;
            }))
        stored_session principal request s stored

  answer_request :
      AgentPrincipal
      → SessionRequest
      → String
      → String
      → ℕ
      → Option SessionRow
      → M RequestSessionResult
  unfolding open_admitted session_fingerprint
  answer_request principal request key_hash fresh now (some replay) =
      pure (replay_request (session_fingerprint principal request) replay)
  answer_request principal request key_hash fresh now none = do
    machine ← query (λ st. machine_authority st principal.organization_id request.machine_id)
    active_sessions ←
        query (λ st. count_active_sessions st principal.organization_id request.machine_id)
    open_admitted principal request key_hash fresh now
        (admission principal request active_sessions machine)

  unfoldable pub request_session :
      AgentPrincipal → SessionRequest → String → String → ℕ → M RequestSessionResult
  unfolding answer_request
  request_session principal request idempotency_key fresh now = do
    replay ← query (λ st.
        session_by_idempotency st principal.organization_id principal.agent_id
          (digest.hash idempotency_key))
    answer_request principal request (digest.hash idempotency_key) fresh now replay
