-- ===== src/Server/System/Supervision.antt =====
-- Who let a Session run: an Agent that needs no approval, or a Human.
use odyshell.Base.{
  ℕ, Bool, true, false, Option, some, List, [], ◌∷◌, String, ◌≡◌, refl, arith, update, select, any,
  All, All-map, All-update,
}
use odyshell.Protocol.Session.{Session, SessionStatus}
use odyshell.Protocol.Messages.{
  ClientMessage, session_opened, session_open_failed, session_closed, command_started,
  command_output, command_completed,
}
use odyshell.Server.Store.{log, Store, SessionRow, append, is_live, change, session_key}
use odyshell.Server.Store.Authorities.{put_machine_authority, set_machine_online}
use odyshell.Server.Store.Sessions.{
  Decision, is_approve, approve, deny, expire_row, decide_row, decide_session,
}
use odyshell.Server.Store.Sessions.Effects.{pending_key, decide_session_rule}
use odyshell.Server.Store.Commands.Effects.{request_command_cancellation_rule}
use odyshell.Server.Store.Endings.{
  Outcome, complete, cancel, end_row, expire_sessions, lapsed, overdue, request_end, revoke_each,
  revoke_row, revoke_sessions, revocable,
}
use odyshell.Server.Store.Endings
use odyshell.Server.Store.Endings.Effects.{
  finish_session_rule, revoke_each_rule, revoke_sessions_rule,
}
use odyshell.Server.Store.Reports.{
  OpenedReport, open_row, finish_row, closed_status, mark_command_started,
  purge_expired_command_output,
}
use odyshell.Server.Store.Reports.Effects.{
  opened_row, failed_row, closed_row, mark_session_opened_rule, mark_session_failed_rule,
  mark_session_closed_rule, mark_command_completed_rule, add_command_output_rule,
}
use odyshell.Server.Store.Reconnect.{present}
use odyshell.Server.Service.World.{World}
use odyshell.Server.Service.Client.{SessionClient}
use odyshell.Server.Service.Principal.{AgentPrincipal, Digest, is_operator}
use odyshell.Server.Service.SessionRequests.{first_status}
use odyshell.Server.Service.Supervision.Effects.{audited-sessions}
use odyshell.Server.System.Hooks.{MachineContext}
use odyshell.Server.System.Hooks.Effects.{report}
use odyshell.Server.System.Steps.{Action, step, run}
use odyshell.Server.System.Transitions.{
  Transition, Cause, unchanged, audit_switched, session_added, command_added, supervised, finished,
  command_cancelled, reported, machine_stored, machine_offline, swept, sessions_revoked,
  output_purged, step-Transition, lets_run,
}

abbrev pub Permitted : (String → Bool) → SessionRow → Type 0
Permitted allowed r = is_live r.status ≡ true → allowed r.id ≡ true

-- Each Session under which a Machine may act is one that is allowed to run.
abbrev pub IsSupervised : (String → Bool) → Store → Type 0
IsSupervised allowed st = All (Permitted allowed) st.sessions

-- An update under which no row that was not live becomes so.
update_keeps :
    (allowed : String → Bool) (p : SessionRow → Bool) (f : Session → Session) (st : Store)
    → ((r : SessionRow) → (f r.session).id ≡ r.id)
    → ((r : SessionRow)
        → p r ≡ true
        → is_live (f r.session).status ≡ true
        → is_live r.status ≡ true)
    → IsSupervised allowed st
    → IsSupervised allowed (record st { sessions = update p (change f) st.sessions })
update_keeps allowed p f st same live h =
    All-update (Permitted allowed) p (change f) st.sessions
      (λ r at_r may later. rw (same r) (may (live r at_r later))) h

module _ (allowed : String → Bool) (st : Store) (h : IsSupervised allowed st) where
  decide_keeps :
      (o session_id : String) (d : Decision) (now : ℕ)
      → (is_approve d ≡ true → allowed session_id ≡ true)
      → IsSupervised allowed (decide_session o session_id d now st).0
  decide_keeps o session_id d now may =
      decide_session_rule (λ later r. IsSupervised allowed later) o session_id d now st h h
        (λ current live. h)
        (update_keeps allowed (pending_key o session_id) (expire_row now) st (λ r. refl)
          (λ r at_r live. ground arith) h)
        (λ s same. settles d may)
    where
      settles :
          (d : Decision)
          → (is_approve d ≡ true → allowed session_id ≡ true)
          → IsSupervised allowed (record st {
            sessions = update (pending_key o session_id) (change (decide_row d now)) st.sessions;
          })
      settles approve may =
          All-update (Permitted allowed) (pending_key o session_id)
            (change (decide_row approve now)) st.sessions
            (λ r at_r before live.
              let same : r.id ≡ session_id = ground arith in rw same (may refl))
            h
      settles deny may =
          update_keeps allowed (pending_key o session_id) (decide_row deny now) st (λ r. refl)
            (λ r at_r live. ground arith) h

  finish_keeps :
      (o a s : String) (outcome : Outcome) (now : ℕ)
      → (IsSupervised allowed) (Endings.finish_session o a s outcome now st).0
  finish_keeps o a s outcome now =
      finish_session_rule (IsSupervised allowed) o a s now st outcome h
        (λ current at_current going idle commands stopped.
          update_keeps allowed (session_key o s) (end_row outcome now) st
            (λ r. same_id outcome r.session) (λ r at_r live. dead outcome r live) h)
    where
      same_id : (d : Outcome) (s : Session) → (end_row d now s).id ≡ s.id
      same_id complete s = refl
      same_id cancel s = refl

      dead :
          (d : Outcome) (r : SessionRow)
          → is_live (end_row d now r.session).status ≡ true
          → is_live r.status ≡ true
      dead complete r live = cc
      dead cancel r live = cc

  sweep_keeps : (now : ℕ) → (IsSupervised allowed) (expire_sessions now st).0
  unfolding expire_sessions
  sweep_keeps now =
      let dropped : Store = record st {
        sessions = update (lapsed now) (change (expire_row now)) st.sessions;
      } in
      update_keeps allowed (overdue now) request_end dropped (λ r. refl) (λ r at_r live. cc)
        (update_keeps allowed (lapsed now) (expire_row now) st (λ r. refl) (λ r at_r live. cc) h)

  revoke_keeps :
      (o : String) (a m : Option String) (now : ℕ) (later : Store)
      (ended : List (Session × List String))
      → revoke_sessions o a m now st ≡ some (later, ended)
      → (IsSupervised allowed) later
  revoke_keeps o a m now later ended e =
      revoke_sessions_rule (IsSupervised allowed) o now a m st later ended
        (revoke_each_rule (IsSupervised allowed) o now
          (λ s later' h'.
            update_keeps allowed (session_key o s.id) (revoke_row now) later' (λ r. refl)
              (λ r at_r live. cc) h')
          (select (revocable o a m) st.sessions) st h)
        (λ m' later' h'. h') e

  report_keeps :
      (slice : String → String) (m : MachineContext) (msg : ClientMessage) (now : ℕ)
      → (IsSupervised allowed) (report slice m msg now st)
  unfolding mark_command_started append
  report_keeps slice m (session_opened s p u) now =
      let input : OpenedReport = record {
        organization_id = m.organization_id;
        machine_id = m.machine_id;
        session_id = s;
        client_profile_id = p;
        operating_system_user = u;
      } in
      let h' =
        update_keeps allowed (opened_row input) (open_row now) st (λ r. refl)
          (λ r at_r live. ground arith) h in
      mark_session_opened_rule (IsSupervised allowed) input now st h' (λ e. h')
  report_keeps slice m (session_open_failed s error) now =
      let h' =
        update_keeps allowed (failed_row m.organization_id m.machine_id s)
          (finish_row SessionStatus.failed now) st (λ r. refl) (λ r at_r live. cc) h in
      mark_session_failed_rule (IsSupervised allowed) slice m.organization_id m.machine_id s error
        now st h' (λ e. h')
  report_keeps slice m (session_closed s reason) now =
      let h' =
        update_keeps allowed (closed_row m.organization_id m.machine_id s)
          (finish_row (closed_status reason) now) st (λ r. refl) (λ r at_r live. ground arith) h in
      mark_session_closed_rule (IsSupervised allowed) m.organization_id m.machine_id s reason now st
        h' (λ e. h')
  report_keeps slice m (command_started c at) now = h
  report_keeps slice m (command_output c n s b) now =
      add_command_output_rule (IsSupervised allowed) _ now st h (λ c at_c fits new. h)
  report_keeps slice m (command_completed r) now =
      mark_command_completed_rule (IsSupervised allowed) slice m.organization_id m.machine_id
        (record r { error = present r.error }) st h (λ e. h)

operator_runs :
    (p : AgentPrincipal)
    → is_live (first_status p.agent_role) ≡ true
    → is_operator p.agent_role ≡ true
operator_runs p live = ground arith

module _ (allowed : String → Bool) (client : SessionClient) (digest : Digest)
    (slice : String → String) where
  Transition-IsSupervised :
      {cause : Cause} (st later : Store)
      → ((i : String) → cause.lets_run i ≡ true → allowed i ≡ true)
      → IsSupervised allowed st
      → Transition client digest slice cause st later
      → IsSupervised allowed later
  unfolding append log put_machine_authority set_machine_online purge_expired_command_output
  Transition-IsSupervised st later lets h unchanged = h
  Transition-IsSupervised st later lets h
        (session_added p r key fresh now machine may admitted new) =
      ((λ live. lets fresh (may (operator_runs p live))), h)
  Transition-IsSupervised st later lets h
        (command_added may p s r key fresh at now s' t clear new held) =
      h
  Transition-IsSupervised st later lets h (supervised p s d now may) =
      rw (audited-sessions p d _ _)
        (decide_keeps allowed st h p.organization_id s d now (λ e. lets s (may e)))
  Transition-IsSupervised st later lets h (finished o a s outcome now) =
      finish_keeps allowed st h o a s outcome now
  Transition-IsSupervised st later lets h (command_cancelled o a c) =
      request_command_cancellation_rule (IsSupervised allowed) o c st a h
        (λ current at_current active. h)
  Transition-IsSupervised st later lets h (reported m msg now) =
      report_keeps allowed st h slice m msg now
  Transition-IsSupervised st later lets h (machine_stored authority same) = h
  Transition-IsSupervised st later lets h (machine_offline o m) = h
  Transition-IsSupervised st later lets h (swept now) = sweep_keeps allowed st h now
  Transition-IsSupervised st later lets h (sessions_revoked o a m now after ended e) =
      revoke_keeps allowed st h o a m now after ended e
  Transition-IsSupervised st later lets h (audit_switched works) = h
  Transition-IsSupervised st later lets h (output_purged now) = h

module _ (client : SessionClient) (digest : Digest) (connected : String → Bool)
    (slice : String → String) where
  run_allowed :
      (allowed : String → Bool) (actions : List Action) (w : World)
      → ((i : String) → any (lets_run i) actions ≡ true → allowed i ≡ true)
      → IsSupervised allowed w.store
      → IsSupervised allowed (run client digest connected slice actions w).store
  unfolding run any
  run_allowed allowed [] w lets h = h
  run_allowed allowed (a ∷ rest) w lets h =
      let now = step client digest connected slice a w in
      run_allowed allowed rest now (λ i later. lets i (ground arith))
        (Transition-IsSupervised allowed client digest slice w.store now.store
          (λ i may. lets i (ground arith)) h (step-Transition client digest connected slice a w))

  -- Whatever happens to the Server, also where its audit fails, a Session is opening or active only if
  -- one of the steps was the request of an Agent with the role of an operator that made that Session,
  -- or a Human's approval of that Session. The history starts at a database with no such Session.
  pub run-IsSupervised :
      (actions : List Action) (w : World)
      → All (λ r. is_live r.status ≡ false) w.store.sessions
      → IsSupervised
          (λ i. any (lets_run i) actions)
          (run client digest connected slice actions w).store
  run-IsSupervised actions w none_live =
      run_allowed (λ i. any (lets_run i) actions) actions w (λ i e. e)
        (All-map (Permitted (λ i. any (lets_run i) actions)) w.store.sessions
          (λ r dead live. absurd_live r dead live) none_live)
    where
      absurd_live :
          (r : SessionRow)
          → is_live r.status ≡ false
          → is_live r.status ≡ true
          → any (lets_run r.id) actions ≡ true
      absurd_live r dead live = cc
