-- ===== src/Server/Service/Supervision.antt =====
-- apps/server/src/sessions.ts: `superviseSession`, `finishSession` and `cancelCommand`.
pub mod Effects
use odyshell.Base.{ℕ, Bool, true, false, Option, none, some, List, [], ◌∷◌, String, if◌then◌else◌}
use odyshell.Protocol.Session.{Session, Command}
use odyshell.Server.Store.{AuditType, HumanRole, session_approved, session_denied}
use odyshell.Server.Store.Sessions.{
  Decision, Decided, approve, deny, not_found, conflict, approved, denied, decide_session,
}
use odyshell.Server.Store.Commands.{command, request_command_cancellation}
use odyshell.Server.Store.Endings
use odyshell.Server.Store.Endings.{Outcome, Finish, complete, cancel, finished}
use odyshell.Server.Service.World.{
  World, Reply, Failure, M, pure, ◌>>=◌, ◌>>◌, query, on_store, audit, when, returned, thrown,
  client_unavailable,
}
use odyshell.Server.Service.Client.{SessionClient}
use odyshell.Server.Service.Principal.{AgentPrincipal}

pub record SupervisorPrincipal : Type 0 where
  pub organization_id : String
  pub human_id : String
  pub role : HumanRole

pub data Delivery : Type 0 where
  sent pending : Delivery

pub data SuperviseResult : Type 0 where
  approved_session denied_session : Session → Delivery → SuperviseResult
  session_not_found session_already_decided : SuperviseResult

pub data FinishResult : Type 0 where
  completed cancellation_requested : Session → FinishResult
  session_not_found commands_active : FinishResult

pub data CancelResult : Type 0 where
  cancellation_requested : Command → CancelResult
  command_not_found : CancelResult

abbrev decision_event : Decision → String → HumanRole → AuditType
decision_event approve = session_approved
decision_event deny = session_denied

-- The `catch` of `superviseSession`: a Machine that is gone gets the Session when it reconnects.
abbrev deliver : Session → World × Reply (Unit {0}) → World × Reply SuperviseResult
deliver s (w, returned _) = (w, returned (approved_session s sent))
deliver s (w, thrown client_unavailable) = (w, returned (approved_session s pending))
deliver s (w, thrown e) = (w, thrown e)

module _ (client : SessionClient) where
  audit_decision : SupervisorPrincipal → Decision → Session → M (Unit {0})
  audit_decision principal decision s = audit (record {
    organization_id = s.organization_id;
    agent_id = s.agent_id;
    session_id = s.id;
    command_id = none;
    event = decision_event decision principal.human_id principal.role;
  })

  answer_decision : SupervisorPrincipal → Decision → Decided → M SuperviseResult
  unfolding audit_decision
  answer_decision principal decision not_found = pure SuperviseResult.session_not_found
  answer_decision principal decision conflict = pure session_already_decided
  answer_decision principal decision (denied s changed) = do
    when changed (audit_decision principal decision s)
    pure (denied_session s sent)
  answer_decision principal decision (approved s changed) = do
    when changed (audit_decision principal decision s)
    (λ w. deliver s (client.open_session s w))

  unfoldable pub supervise_session : SupervisorPrincipal → String → Decision → ℕ → M SuperviseResult
  unfolding answer_decision
  supervise_session principal session_id decision now = do
    result ← on_store (decide_session principal.organization_id session_id decision now)
    answer_decision principal decision result

  cancel_found : Option Command → M (Unit {0})
  cancel_found none = pure tt
  cancel_found (some c) = client.cancel_command c

  cancel_all : String → List String → M (Unit {0})
  unfolding cancel_found
  cancel_all organization_id [] = pure tt
  cancel_all organization_id (i ∷ is) =
      (query (λ st. command st organization_id i) >>= cancel_found) >> cancel_all organization_id is

  abbrev close_reason : Outcome → String
  close_reason complete = "completed"
  close_reason cancel = "cancelled"

  abbrev finish_status : Outcome → Session → FinishResult
  finish_status complete s = completed s
  finish_status cancel s = FinishResult.cancellation_requested s

  abbrev is_cancel : Outcome → Bool
  is_cancel complete = false
  is_cancel cancel = true

  answer_finish : String → Outcome → Finish → M FinishResult
  unfolding cancel_all
  answer_finish organization_id outcome Finish.not_found = pure FinishResult.session_not_found
  answer_finish organization_id outcome Finish.commands_active = pure FinishResult.commands_active
  answer_finish organization_id outcome (finished s command_ids) = do
    when (is_cancel outcome) (cancel_all organization_id command_ids)
    client.close_session s (close_reason outcome)
    pure (finish_status outcome s)

  unfoldable pub finish_session : AgentPrincipal → String → Outcome → ℕ → M FinishResult
  unfolding answer_finish
  finish_session principal session_id outcome now = do
    result ←
        on_store (
          Endings.finish_session principal.organization_id principal.agent_id session_id outcome
            now)
    answer_finish principal.organization_id outcome result

  answer_cancel : Option Command → M CancelResult
  answer_cancel none = pure command_not_found
  answer_cancel (some c) = do client.cancel_command c; pure (CancelResult.cancellation_requested c)

  unfoldable pub cancel_command : AgentPrincipal → String → M CancelResult
  unfolding answer_cancel
  cancel_command principal command_id = do
    found ←
        on_store
          (request_command_cancellation principal.organization_id principal.agent_id command_id)
    answer_cancel found
