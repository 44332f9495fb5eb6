-- ===== src/Server/Service/Supervision/Effects.antt =====
-- What `superviseSession`, `finishSession` and `cancelCommand` leave in the database: the step of the
-- database, and for a decision that changes the Session its audit event.
use odyshell.Base.{◌≡◌, refl, ℕ, true, false, Option, none, some, List, [], ◌∷◌, String}
use odyshell.Protocol.Session.{Session, Command}
use odyshell.Server.Store.{Store, AuditEvent, log}
use odyshell.Server.Store.Sessions.{
  Decision, Decided, not_found, conflict, approved, denied, decide_session,
}
use odyshell.Server.Store.Commands.{command, request_command_cancellation}
use odyshell.Server.Store.Endings
use odyshell.Server.Store.Endings.{Outcome, Finish, finished}
use odyshell.Server.Service.World.{
  audit_rule, pure, World, Reply, Failure, pure, when, ◌>>◌, returned, thrown, after_rule,
  when_rule,
}
use odyshell.Server.Service.Client.{SessionClient}
use odyshell.Server.Service.Principal.{AgentPrincipal}
use odyshell.Server.Service.Supervision.{
  denied_session, sent, SupervisorPrincipal, CancelResult, decision_event, deliver, audit_decision,
  answer_decision, supervise_session, cancel_found, cancel_all, is_cancel, close_reason,
  finish_status, answer_finish, finish_session, answer_cancel, cancel_command,
}

abbrev pub decided_event : SupervisorPrincipal → Decision → Session → AuditEvent
decided_event principal decision s = record {
  organization_id = s.organization_id;
  agent_id = s.agent_id;
  session_id = s.id;
  command_id = none;
  event = decision_event decision principal.human_id principal.role;
}

-- The database after the decision's audit, which a decision without effect leaves out.
abbrev pub audited : SupervisorPrincipal → Decision → Decided → Store → Store
audited principal decision (approved s true) st = log (decided_event principal decision s) st
audited principal decision (denied s true) st = log (decided_event principal decision s) st
audited principal decision _ st = st

pub audited-sessions :
    (principal : SupervisorPrincipal) (d : Decision) (r : Decided) (st : Store)
    → (audited principal d r st).sessions ≡ st.sessions
unfolding log
audited-sessions principal d not_found st = refl
audited-sessions principal d conflict st = refl
audited-sessions principal d (approved s true) st = refl
audited-sessions principal d (approved s false) st = refl
audited-sessions principal d (denied s true) st = refl
audited-sessions principal d (denied s false) st = refl

pub audited-commands :
    (principal : SupervisorPrincipal) (d : Decision) (r : Decided) (st : Store)
    → (audited principal d r st).commands ≡ st.commands
unfolding log
audited-commands principal d not_found st = refl
audited-commands principal d conflict st = refl
audited-commands principal d (approved s true) st = refl
audited-commands principal d (approved s false) st = refl
audited-commands principal d (denied s true) st = refl
audited-commands principal d (denied s false) st = refl

pub audited-chunks :
    (principal : SupervisorPrincipal) (d : Decision) (r : Decided) (st : Store)
    → (audited principal d r st).chunks ≡ st.chunks
unfolding log
audited-chunks principal d not_found st = refl
audited-chunks principal d conflict st = refl
audited-chunks principal d (approved s true) st = refl
audited-chunks principal d (approved s false) st = refl
audited-chunks principal d (denied s true) st = refl
audited-chunks principal d (denied s false) st = refl

module _ {ℓ} (P : Store → Type ℓ) (client : SessionClient) where
  deliver_rule :
      (s : Session) (r : World × Reply (Unit {0})) → P r.0.store → P (deliver s r).0.store
  deliver_rule s (w, returned a) h = h
  deliver_rule s (w, thrown Failure.client_unavailable) h = h
  deliver_rule s (w, thrown e) h = h

  answer_decision_rule :
      (principal : SupervisorPrincipal) (decision : Decision) (d : Decided) (w : World)
      → P (audited principal decision d w.store)
      → P (answer_decision client principal decision d w).0.store
  unfolding answer_decision audit_decision
  answer_decision_rule principal decision not_found w h = h
  answer_decision_rule principal decision conflict w h = h
  answer_decision_rule principal decision (denied s true) w h =
      audit_rule P (decided_event principal decision s) (λ _. pure (denied_session s sent)) w h h
  answer_decision_rule principal decision (denied s false) w h = h
  answer_decision_rule principal decision (approved s true) w h =
      let w' : World = record w { store = log (decided_event principal decision s) w.store } in
      audit_rule P (decided_event principal decision s) (λ _ v. deliver s (client.open_session s v))
        w h (deliver_rule s (client.open_session s w') (rw (client.open_keeps s w') h))
  answer_decision_rule principal decision (approved s false) w h =
      deliver_rule s (client.open_session s w) (rw (client.open_keeps s w) h)

  pub supervise_session_rule :
      (principal : SupervisorPrincipal) (session_id : String) (decision : Decision) (now : ℕ)
      (w : World)
      → (let r = decide_session principal.organization_id session_id decision now w.store in
          P (audited principal decision r.1 r.0))
      → P (supervise_session client principal session_id decision now w).0.store
  unfolding supervise_session
  supervise_session_rule principal session_id decision now w h =
      let r = decide_session principal.organization_id session_id decision now w.store in
      answer_decision_rule principal decision r.1 (record w { store = r.0 }) h

  cancel_found_rule :
      (o : Option Command) (w : World) → P w.store → P (cancel_found client o w).0.store
  unfolding cancel_found
  cancel_found_rule none w h = h
  cancel_found_rule (some c) w h = rw (client.cancel_keeps c w) h

  cancel_all_rule :
      (organization_id : String) (is : List String) (w : World)
      → P w.store
      → P (cancel_all client organization_id is w).0.store
  unfolding cancel_all
  cancel_all_rule organization_id [] w h = h
  cancel_all_rule organization_id (i ∷ is) w h =
      after_rule P (λ _. cancel_all client organization_id is)
        (cancel_found client (command w.store organization_id i) w)
        (cancel_found_rule (command w.store organization_id i) w h)
        (λ a w' h'. cancel_all_rule organization_id is w' h')

  answer_finish_rule :
      (organization_id : String) (outcome : Outcome) (f : Finish) (w : World)
      → P w.store
      → P (answer_finish client organization_id outcome f w).0.store
  unfolding answer_finish
  answer_finish_rule organization_id outcome Finish.not_found w h = h
  answer_finish_rule organization_id outcome Finish.commands_active w h = h
  answer_finish_rule organization_id outcome (finished s command_ids) w h =
      after_rule P
        (λ _.
          client.close_session s (close_reason client outcome)
          >> pure (finish_status client outcome s))
        (when (is_cancel client outcome) (cancel_all client organization_id command_ids) w)
        (when_rule P (is_cancel client outcome) (cancel_all client organization_id command_ids) w h
          (cancel_all_rule organization_id command_ids w h))
        (λ a w' h'.
          after_rule P (λ _. pure (finish_status client outcome s))
            (client.close_session s (close_reason client outcome) w')
            (rw (client.close_keeps s (close_reason client outcome) w') h') (λ b w'' h''. h''))

  pub finish_session_rule :
      (principal : AgentPrincipal) (session_id : String) (outcome : Outcome) (now : ℕ) (w : World)
      → P
          (Endings.finish_session principal.organization_id principal.agent_id session_id outcome
            now w.store).0
      → P (finish_session client principal session_id outcome now w).0.store
  unfolding finish_session
  finish_session_rule principal session_id outcome now w h =
      let r =
        Endings.finish_session principal.organization_id principal.agent_id session_id outcome now
          w.store in
      answer_finish_rule principal.organization_id outcome r.1 (record w { store = r.0 }) h

  answer_cancel_rule :
      (o : Option Command) (w : World) → P w.store → P (answer_cancel client o w).0.store
  unfolding answer_cancel
  answer_cancel_rule none w h = h
  answer_cancel_rule (some c) w h =
      after_rule P (λ _. pure (CancelResult.cancellation_requested c)) (client.cancel_command c w)
        (rw (client.cancel_keeps c w) h) (λ a w' h'. h')

  pub cancel_command_rule :
      (principal : AgentPrincipal) (command_id : String) (w : World)
      → P
          (request_command_cancellation principal.organization_id principal.agent_id command_id
            w.store).0
      → P (cancel_command client principal command_id w).0.store
  unfolding cancel_command
  cancel_command_rule principal command_id w h =
      let r =
        request_command_cancellation principal.organization_id principal.agent_id command_id
          w.store in
      answer_cancel_rule r.1 (record w { store = r.0 }) h
