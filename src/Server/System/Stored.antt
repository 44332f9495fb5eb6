-- ===== src/Server/System/Stored.antt =====
-- How much output the Server stores for a Command.
pub mod Bytes
use odyshell.Base.{
  ℕ, ◌+◌, ◌≤◌, Bool, false, ◌&&◌, some, List, [], ◌∷◌, String, ◌≡◌, refl, inl, inr, arith,
  if◌then◌else◌, leb, find, update, select, remove, returning, any, length, has_key, Bool-cases,
}
use odyshell.Protocol.Session.{Command, default_command_output_bytes}
use odyshell.Protocol.Messages.{
  ClientMessage, OutputStream, stdout, stderr, session_opened, session_open_failed, session_closed,
  command_started, command_output, command_completed,
}
use odyshell.Server.Store.{
  log, Store, SessionRow, CommandRow, OutputChunk, change, change_command, command_key,
  is_undelivered, append,
}
use odyshell.Server.Store.Authorities.{put_machine_authority, set_machine_online}
use odyshell.Server.Store.Sessions.{expire_row}
use odyshell.Server.Store.Sessions.Effects.{decide_session_rule}
use odyshell.Server.Store.Commands.{active_in, cancel_row}
use odyshell.Server.Store.Commands.Effects.{request_command_cancellation_rule}
use odyshell.Server.Store.Endings.{
  expire_sessions, cancel_commands, revocable, request_end, overdue, lapsed,
}
use odyshell.Server.Store.Endings.Effects.{
  IsStopped, finish_session_rule, revoke_each_rule, revoke_sessions_rule,
}
use odyshell.Server.Store.Reports.{
  OutputReport, add_bytes, chunk_of, chunk_key, start_row, complete_row, command_on_machine,
  mark_command_started, purge_expired_command_output,
}
use odyshell.Server.Store.Reports.Effects.{
  completed_row, output_row, mark_session_opened_rule, mark_session_failed_rule,
  mark_session_closed_rule, mark_command_completed_rule, add_command_output_rule,
}
use odyshell.Server.Store.Reconnect.{present}
use odyshell.Server.Service.World.{World}
use odyshell.Server.Service.Client.{SessionClient}
use odyshell.Server.Service.Principal.{Digest}
use odyshell.Server.Service.Supervision.Effects.{audited-commands, audited-chunks}
use odyshell.Server.System.Hooks.{MachineContext}
use odyshell.Server.System.Hooks.Effects.{report}
use odyshell.Server.System.Steps.{Action, step, run}
use odyshell.Server.System.Transitions.{
  Transition, Cause, unchanged, audit_switched, session_added, command_added, supervised, finished,
  command_cancelled, reported, machine_stored, machine_offline, swept, sessions_revoked,
  output_purged, step-Transition,
}
use odyshell.Server.System.Output.{command_id_of, HasBoundedOutput, run-HasBoundedOutput}
use odyshell.Server.System.Stored.Bytes.{
  stored, taken, Covers, IsCovered, update_keeps, cancel_keeps, stopped_keeps,
  cancel_commands_keeps, grow, output_keeps, stored-remove, taken-bounded,
}

module _ (st : Store) (h : IsCovered st) where
  report_keeps :
      (slice : String → String) (m : MachineContext) (msg : ClientMessage) (now : ℕ)
      → IsCovered (report slice m msg now st)
  unfolding mark_command_started append grow
  report_keeps slice m (session_opened s p u) now =
      mark_session_opened_rule IsCovered _ now st h (λ e. h)
  report_keeps slice m (session_open_failed s error) now =
      mark_session_failed_rule IsCovered slice m.organization_id m.machine_id s error now st h
        (λ e. h)
  report_keeps slice m (session_closed s reason) now =
      mark_session_closed_rule IsCovered m.organization_id m.machine_id s reason now st h (λ e. h)
  report_keeps slice m (command_started c at) now =
      update_keeps
        (λ r. command_on_machine m.organization_id m.machine_id c r && is_undelivered r.status)
        (start_row at) st.chunks st.commands (λ r. (refl, refl, omega arith, omega arith)) h
  report_keeps slice m (command_output c n s b) now =
      let input : OutputReport = record {
        organization_id = m.organization_id;
        machine_id = m.machine_id;
        command_id = c;
        stream = s;
        sequence = n;
        bytes = b;
      } in
      add_command_output_rule IsCovered input now st h
        (λ r at_r fits new. output_keeps input (now + st.retention) st.chunks st.commands r at_r h)
  report_keeps slice m (command_completed r) now =
      let input = record r { error = present r.error } in
      let h' =
        update_keeps (completed_row m.organization_id m.machine_id r.command_id)
          (complete_row slice input) st.chunks st.commands
          (λ r. (refl, refl, omega arith, omega arith)) h in
      mark_command_completed_rule IsCovered slice m.organization_id m.machine_id input st h'
        (λ e. h')

module _ (client : SessionClient) (digest : Digest) (slice : String → String) where
  Transition-IsCovered :
      {cause : Cause} (st later : Store)
      → IsCovered st
      → Transition client digest slice cause st later
      → IsCovered later
  unfolding append log put_machine_authority set_machine_online purge_expired_command_output
      expire_sessions taken
  Transition-IsCovered st later h unchanged = h
  Transition-IsCovered st later h (session_added p r key fresh now machine may admitted new) = h
  Transition-IsCovered st later h (command_added may p s r key fresh at now s' t clear new held) =
      λ o i. let before = h o i in ground arith
  Transition-IsCovered st later h (supervised p s d now may) =
      rw (audited-commands p d _ _, audited-chunks p d _ _)
        (decide_session_rule (λ later' r. IsCovered later') p.organization_id s d now st h h
          (λ current live. h) h (λ s' same. h))
  Transition-IsCovered st later h (finished o a s outcome now) =
      finish_session_rule IsCovered o a s now st outcome h
        (λ current at_current going idle commands stopped. stopped_keeps o s st commands stopped h)
  Transition-IsCovered st later h (command_cancelled o a c) =
      request_command_cancellation_rule IsCovered o c st a h
        (λ current at_current active. cancel_keeps _ st.chunks st.commands h)
  Transition-IsCovered st later h (reported m msg now) = report_keeps st h slice m msg now
  Transition-IsCovered st later h (machine_stored authority same) = h
  Transition-IsCovered st later h (machine_offline o m) = h
  Transition-IsCovered st later h (swept now) =
      cancel_commands_keeps
        (returning (overdue now) (change request_end)
          (update (lapsed now) (change (expire_row now)) st.sessions))
        st.chunks st.commands h
  Transition-IsCovered st later h (sessions_revoked o a m now after ended e) =
      revoke_sessions_rule IsCovered o now a m st after ended
        (revoke_each_rule IsCovered o now
          (λ s later' h'. cancel_keeps (active_in o s.id) later'.chunks later'.commands h')
          (select (revocable o a m) st.sessions) st h)
        (λ m' later' h'. h') e
  Transition-IsCovered st later h (audit_switched works) = h
  Transition-IsCovered st later h (output_purged now) = λ o i.
      let before = h o i in
      let fewer = stored-remove o i (λ k. leb k.expires_at now) st.chunks in omega arith

  run-IsCovered :
      (connected : String → Bool) (actions : List Action) (w : World)
      → IsCovered w.store
      → IsCovered (run client digest connected slice actions w).store
  unfolding run
  run-IsCovered connected [] w h = h
  run-IsCovered connected (a ∷ rest) w h =
      let now = step client digest connected slice a w in
      run-IsCovered connected rest now (
        Transition-IsCovered w.store now.store h
          (step-Transition client digest connected slice a w))

module _ (client : SessionClient) (digest : Digest) (connected : String → Bool)
    (slice : String → String) where
  -- Whatever happens to the Server, the bytes of output that its database stores for a Command, on both
  -- streams together, are at most those that the Command's row counts, and at most a MiB. The history
  -- starts at any database whose Commands have different ids, count no more than a MiB each, and count
  -- every byte that is stored.
  pub run-stored :
      (actions : List Action) (w : World) (organization_id command_id : String)
      → HasBoundedOutput w.store.commands
      → Covers w.store.chunks w.store.commands
      → let later = (run client digest connected slice actions w).store in
        (stored organization_id command_id later.chunks
          ≤ taken organization_id command_id later.commands)
        × (stored organization_id command_id later.chunks ≤ default_command_output_bytes)
  run-stored actions w o i bounded covered =
      let later = (run client digest connected slice actions w).store in
      let counted = run-IsCovered client digest slice connected actions w covered o i in
      let few =
        taken-bounded o i later.commands
          (run-HasBoundedOutput client digest connected slice actions w bounded) in
      (counted, omega arith)
