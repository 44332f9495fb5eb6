-- ===== src/Server/System/Limits/History.antt =====
-- The limit on a Session's active Commands over the Server's history.
use odyshell.Base.{
  ℕ, suc, ◌≤◌, false, Option, some, List, String, ◌≡◌, refl, arith, update, select, length,
  returning,
}
use odyshell.Protocol.Session.{Session, SessionStatus}
use odyshell.Protocol.Messages.{
  ClientMessage, session_opened, session_open_failed, session_closed, command_started,
  command_output, command_completed,
}
use odyshell.Server.Store.{log, Store, change, change_command, session_key, command_key, append}
use odyshell.Server.Store.Authorities.{put_machine_authority, set_machine_online}
use odyshell.Server.Store.Sessions.{
  Decision, session_insert, expire_row, decide_row, decide_session,
}
use odyshell.Server.Store.Sessions.Effects.{pending_key, decide_session_rule}
use odyshell.Server.Store.Commands.{active_in, cancel_row}
use odyshell.Server.Store.Commands.Effects.{request_command_cancellation_rule}
use odyshell.Server.Store.Endings
use odyshell.Server.Store.Endings.{
  Outcome, complete, cancel, end_row, expire_sessions, cancel_commands, revoke_sessions, revocable,
  revoke_row, ids, mem_id, request_end, overdue, lapsed,
}
use odyshell.Server.Store.Endings.Effects.{
  finish_session_rule, revoke_each_rule, revoke_sessions_rule,
}
use odyshell.Server.Store.Reports.{
  OpenedReport, open_row, finish_row, closed_status, mark_command_started,
  purge_expired_command_output,
}
use odyshell.Server.Store.Reports.Effects.{
  opened_row, failed_row, closed_row, mark_session_opened_rule, mark_session_failed_rule,
  mark_session_closed_rule, mark_command_completed_rule, add_command_output_rule,
}
use odyshell.Server.Store.Reconnect.{present}
use odyshell.Server.Store.Lifecycle.UniqueIds.{not_clash as not_session_clash}
use odyshell.Server.Service.Client.{SessionClient}
use odyshell.Server.Service.Principal.{Digest}
use odyshell.Server.Service.SessionRequests.Effects.{creation as session_creation}
use odyshell.Server.Service.Supervision.Effects.{audited-sessions, audited-commands}
use odyshell.Server.Service.Admission.{admission-eq-admitted}
use odyshell.Server.System.Hooks.{MachineContext}
use odyshell.Server.System.Hooks.Effects.{report}
use odyshell.Server.System.Transitions.{
  Transition, Cause, unchanged, audit_switched, session_added, command_added, supervised, finished,
  command_cancelled, reported, machine_stored, machine_offline, swept, sessions_revoked,
  output_purged,
}
use odyshell.Server.System.Limits.Updates.{
  IsLimited, finish_Regular, decide_Regular, end_Regular, request_Regular, cancel_keeps,
  stopped_keeps, cancel_commands_keeps, output_keeps, start_keeps, complete_keeps,
  cancellation_keeps,
}
use odyshell.Server.System.Limits.{session_update, session_added_limits}

module _ (reserved : String → ℕ) (slack : ℕ) where
  module _ (st : Store) (h : (IsLimited reserved slack) st) where
    report_keeps :
        (slice : String → String) (m : MachineContext) (msg : ClientMessage) (now : ℕ)
        → (IsLimited reserved slack) (report slice m msg now st)
    unfolding mark_command_started append
    report_keeps slice m (session_opened s p u) now =
        let input : OpenedReport = record {
          organization_id = m.organization_id;
          machine_id = m.machine_id;
          session_id = s;
          client_profile_id = p;
          operating_system_user = u;
        } in
        let h' =
          session_update reserved slack (opened_row input) (open_row now) st.sessions st.commands
            (record { same_id = λ s. refl; same_organization = λ s. refl; same_limit = λ s. refl })
            h in
        mark_session_opened_rule (IsLimited reserved slack) input now st h' (λ e. h')
    report_keeps slice m (session_open_failed s error) now =
        let h' =
          session_update reserved slack (failed_row m.organization_id m.machine_id s)
            (finish_row SessionStatus.failed now) st.sessions st.commands
            (finish_Regular SessionStatus.failed now) h in
        mark_session_failed_rule (IsLimited reserved slack) slice m.organization_id m.machine_id s
          error now st h' (λ e. h')
    report_keeps slice m (session_closed s reason) now =
        let h' =
          session_update reserved slack (closed_row m.organization_id m.machine_id s)
            (finish_row (closed_status reason) now) st.sessions st.commands
            (finish_Regular (closed_status reason) now) h in
        mark_session_closed_rule (IsLimited reserved slack) m.organization_id m.machine_id s reason
          now st h' (λ e. h')
    report_keeps slice m (command_started c at) now =
        start_keeps reserved slack m.organization_id m.machine_id c at st.sessions st.commands h
    report_keeps slice m (command_output c n s b) now =
        add_command_output_rule (IsLimited reserved slack)
          (record {
            organization_id = m.organization_id;
            machine_id = m.machine_id;
            command_id = c;
            stream = s;
            sequence = n;
            bytes = b;
          })
          now st h
          (λ r at_r fits new.
            output_keeps reserved slack s (length b) (command_key m.organization_id c) st.sessions
              st.commands h)
    report_keeps slice m (command_completed r) now =
        let input = record r { error = present r.error } in
        let h' =
          complete_keeps reserved slack slice m.organization_id m.machine_id r.command_id input
            st.sessions st.commands h in
        mark_command_completed_rule (IsLimited reserved slack) slice m.organization_id m.machine_id
          input st h' (λ e. h')

    decide_keeps :
        (o i : String) (d : Decision) (now : ℕ)
        → (IsLimited reserved slack) (decide_session o i d now st).0
    decide_keeps o i d now =
        decide_session_rule (λ later r. (IsLimited reserved slack) later) o i d now st h h
          (λ current live. h)
          (session_update reserved slack (pending_key o i) (expire_row now) st.sessions st.commands
            (finish_Regular SessionStatus.expired now) h)
          (λ s same.
            session_update reserved slack (pending_key o i) (decide_row d now) st.sessions
              st.commands (decide_Regular d now) h)

    finish_keeps :
        (o a s : String) (outcome : Outcome) (now : ℕ)
        → (IsLimited reserved slack) (Endings.finish_session o a s outcome now st).0
    finish_keeps o a s outcome now =
        finish_session_rule (IsLimited reserved slack) o a s now st outcome h
          (λ current at_current going idle commands stopped.
            session_update reserved slack (session_key o s) (end_row outcome now) st.sessions
              commands (end_Regular outcome now)
              (stopped_keeps reserved slack o s st commands stopped h))

    sweep_keeps : (now : ℕ) → (IsLimited reserved slack) (expire_sessions now st).0
    unfolding expire_sessions
    sweep_keeps now =
        let dropped = update (lapsed now) (change (expire_row now)) st.sessions in
        cancel_commands_keeps reserved slack (returning (overdue now) (change request_end) dropped)
          (update (overdue now) (change request_end) dropped) st.commands
          (session_update reserved slack (overdue now) request_end dropped st.commands
            request_Regular
            (session_update reserved slack (lapsed now) (expire_row now) st.sessions st.commands
              (finish_Regular SessionStatus.expired now) h))

    revoke_keeps :
        (o : String) (a m : Option String) (now : ℕ) (later : Store)
        (ended : List (Session × List String))
        → revoke_sessions o a m now st ≡ some (later, ended)
        → (IsLimited reserved slack) later
    revoke_keeps o a m now later ended e =
        revoke_sessions_rule (IsLimited reserved slack) o now a m st later ended
          (revoke_each_rule (IsLimited reserved slack) o now
            (λ s later' h'.
              session_update reserved slack (session_key o s.id) (revoke_row now) later'.sessions
                (update (active_in o s.id) (change_command cancel_row) later'.commands)
                (finish_Regular SessionStatus.revoked now)
                (cancel_keeps reserved slack o s.id later'.sessions later'.commands h'))
            (select (revocable o a m) st.sessions) st h)
          (λ m' later' h'. h') e

  module _ (client : SessionClient) (digest : Digest) (slice : String → String) where
    pub Transition-IsLimited :
        {cause : Cause} (st later : Store)
        → (cause.creates_command ≡ false)
        → ((i : String) → reserved i ≤ suc slack)
        → (IsLimited reserved slack) st
        → Transition client digest slice cause st later
        → (IsLimited reserved slack) later
    unfolding append log put_machine_authority set_machine_online purge_expired_command_output
    Transition-IsLimited st later calm few h unchanged = h
    Transition-IsLimited st later calm few h
          (session_added p r key fresh now machine may admitted new) =
        let row =
          session_insert (session_creation client digest p r (digest.hash key) fresh now machine) in
        let (found, o, on, po, d, n, one, role) =
          (admission-eq-admitted p r _ _ machine).0 admitted in
        let least = few row.id in
        session_added_limits reserved slack row st.sessions st.commands
          (not_session_clash row st.sessions new) (omega arith) h
    Transition-IsLimited st later calm few h
          (command_added may p s r key fresh at now s' t clear new held) =
        cc
    Transition-IsLimited st later calm few h (supervised p s d now may) =
        rw (audited-sessions p d _ _, audited-commands p d _ _)
          (decide_keeps st h p.organization_id s d now)
    Transition-IsLimited st later calm few h (finished o a s outcome now) =
        finish_keeps st h o a s outcome now
    Transition-IsLimited st later calm few h (command_cancelled o a c) =
        request_command_cancellation_rule (IsLimited reserved slack) o c st a h
          (λ current at_current active.
            cancellation_keeps reserved slack o a c st current at_current active h)
    Transition-IsLimited st later calm few h (reported m msg now) =
        report_keeps st h slice m msg now
    Transition-IsLimited st later calm few h (machine_stored authority same) = h
    Transition-IsLimited st later calm few h (machine_offline o m) = h
    Transition-IsLimited st later calm few h (swept now) = sweep_keeps st h now
    Transition-IsLimited st later calm few h (sessions_revoked o a m now then ended e) =
        revoke_keeps st h o a m now then ended e
    Transition-IsLimited st later calm few h (audit_switched works) = h
    Transition-IsLimited st later calm few h (output_purged now) = h
