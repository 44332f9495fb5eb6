-- ===== src/Server/System/Output.antt =====
-- How much output the rows of the Commands count.
use odyshell.Base.{
  ℕ, ◌+◌, ◌≤◌, Bool, true, false, ◌&&◌, some, List, [], ◌∷◌, String, ◌≡◌, refl, inl, inr, arith,
  find, update, select, returning, any, length, All, All-update, All-update_one, has_key,
  HasUniqueKeys, update-HasUniqueKeys, find-test,
}
use odyshell.Protocol.Session.{Command, default_command_output_bytes}
use odyshell.Protocol.Messages.{
  ClientMessage, OutputStream, stdout, stderr, session_opened, session_open_failed, session_closed,
  command_started, command_output, command_completed,
}
use odyshell.Server.Store.{
  log, Store, SessionRow, CommandRow, change, change_command, command_key, is_undelivered, append,
}
use odyshell.Server.Store.Authorities.{put_machine_authority, set_machine_online}
use odyshell.Server.Store.Sessions.{expire_row}
use odyshell.Server.Store.Sessions.Effects.{decide_session_rule}
use odyshell.Server.Store.Commands.{active_in, cancel_row, command_insert, command_clash}
use odyshell.Server.Store.Commands.Effects.{request_command_cancellation_rule}
use odyshell.Server.Store.Endings.{
  expire_sessions, cancel_commands, revocable, request_end, overdue, lapsed,
}
use odyshell.Server.Store.Endings.Effects.{
  IsStopped, finish_session_rule, revoke_each_rule, revoke_sessions_rule,
}
use odyshell.Server.Store.Reports.{
  OutputReport, add_bytes, start_row, complete_row, command_on_machine, mark_command_started,
  purge_expired_command_output,
}
use odyshell.Server.Store.Reports.Effects.{
  completed_row, output_row, mark_session_opened_rule, mark_session_failed_rule,
  mark_session_closed_rule, mark_command_completed_rule, add_command_output_rule,
}
use odyshell.Server.Store.Reconnect.{present}
use odyshell.Server.Service.World.{World}
use odyshell.Server.Service.Client.{SessionClient}
use odyshell.Server.Service.Principal.{Digest}
use odyshell.Server.Service.CommandRequests.Effects.{creation as command_creation}
use odyshell.Server.Service.Supervision.Effects.{audited-commands}
use odyshell.Server.System.Hooks.{MachineContext}
use odyshell.Server.System.Hooks.Effects.{report}
use odyshell.Server.System.Steps.{Action, step, run}
use odyshell.Server.System.Transitions.{
  Transition, Cause, unchanged, audit_switched, session_added, command_added, supervised, finished,
  command_cancelled, reported, machine_stored, machine_offline, swept, sessions_revoked,
  output_purged, step-Transition,
}

abbrev pub command_id_of : CommandRow → String
command_id_of r = r.id

abbrev pub Fits : CommandRow → Type 0
Fits r = r.stdout_bytes + r.stderr_bytes ≤ default_command_output_bytes

-- The Commands have different ids, and none has produced more output than is allowed.
abbrev pub HasBoundedOutput : List CommandRow → Type 0
HasBoundedOutput rows = HasUniqueKeys command_id_of rows × All Fits rows

-- Updates that leave the id and the two counts alone.
update_keeps :
    (p : CommandRow → Bool) (f : Command → Command) (rows : List CommandRow)
    → ((r : CommandRow) → (f r.command_record).id ≡ r.id)
    → ((r : CommandRow)
        → ((f r.command_record).stdout_bytes ≡ r.stdout_bytes)
          × ((f r.command_record).stderr_bytes ≡ r.stderr_bytes))
    → HasBoundedOutput rows
    → HasBoundedOutput (update p (change_command f) rows)
update_keeps p f rows same counts h = (
  update-HasUniqueKeys command_id_of p (change_command f) rows same h.0,
  All-update Fits p (change_command f) rows
      (λ r at_r fits. let (out, err) = counts r in omega arith) h.1,
)

cancel_keeps :
    (p : CommandRow → Bool) (rows : List CommandRow)
    → HasBoundedOutput rows
    → HasBoundedOutput (update p (change_command cancel_row) rows)
cancel_keeps p rows h = update_keeps p cancel_row rows (λ r. refl) (λ r. (refl, refl)) h

stopped_keeps :
    (o s : String) (st : Store) (rows : List CommandRow)
    → IsStopped o s st rows
    → HasBoundedOutput st.commands
    → HasBoundedOutput rows
stopped_keeps o s st rows (inl e) h = rw e h
stopped_keeps o s st rows (inr e) h = rw e (cancel_keeps _ st.commands h)

cancel_commands_keeps :
    (ended : List SessionRow) (rows : List CommandRow)
    → HasBoundedOutput rows
    → HasBoundedOutput (cancel_commands ended rows).0
unfolding cancel_commands
cancel_commands_keeps [] rows h = h
cancel_commands_keeps (s ∷ ss) rows h =
    cancel_commands_keeps ss _ (cancel_keeps (active_in s.organization_id s.id) rows h)

pub not_clash :
    (row : CommandRow) (rows : List CommandRow)
    → any (command_clash row) rows ≡ false
    → any (has_key command_id_of row.id) rows ≡ false
unfolding any
not_clash row [] h = refl
not_clash row (x ∷ xs) h = ground (arith, not_clash row xs)

output_keeps :
    (input : OutputReport) (rows : List CommandRow) (c : CommandRow)
    → find (output_row input) rows ≡ some c
    → c.stdout_bytes + c.stderr_bytes + length input.bytes ≤ default_command_output_bytes
    → HasBoundedOutput rows
    → HasBoundedOutput (
        update
          (command_key input.organization_id input.command_id)
          (change_command (add_bytes input.stream (length input.bytes)))
          rows)
output_keeps input rows c at_c room h = (
  update-HasUniqueKeys command_id_of key (change_command grow) rows
      (λ r. same_id input.stream r.command_record) h.0,
  All-update_one command_id_of Fits key (output_row input) (change_command grow) rows c h.0 at_c
      (λ r k.
        let k' : output_row input c ≡ true = find-test (output_row input) rows c at_c in
        ground arith)
      (fits input.stream) h.1,
)
  where
    key : CommandRow → Bool
    key = command_key input.organization_id input.command_id

    grow : Command → Command
    grow = add_bytes input.stream (length input.bytes)

    same_id : (o : OutputStream) (k : Command) → (add_bytes o (length input.bytes) k).id ≡ k.id
    same_id stdout k = refl
    same_id stderr k = refl

    fits : (o : OutputStream) → Fits (change_command (add_bytes o (length input.bytes)) c)
    fits stdout = omega arith
    fits stderr = omega arith

abbrev IsBounded : Store → Type 0
IsBounded st = HasBoundedOutput st.commands

module _ (st : Store) (h : IsBounded st) where
  report_keeps :
      (slice : String → String) (m : MachineContext) (msg : ClientMessage) (now : ℕ)
      → IsBounded (report slice m msg now st)
  unfolding mark_command_started append
  report_keeps slice m (session_opened s p u) now =
      mark_session_opened_rule IsBounded _ now st h (λ e. h)
  report_keeps slice m (session_open_failed s error) now =
      mark_session_failed_rule IsBounded slice m.organization_id m.machine_id s error now st h
        (λ e. h)
  report_keeps slice m (session_closed s reason) now =
      mark_session_closed_rule IsBounded m.organization_id m.machine_id s reason now st h (λ e. h)
  report_keeps slice m (command_started c at) now =
      update_keeps
        (λ r. command_on_machine m.organization_id m.machine_id c r && is_undelivered r.status)
        (start_row at) st.commands (λ r. refl) (λ r. (refl, refl)) h
  report_keeps slice m (command_output c n s b) now =
      let input : OutputReport = record {
        organization_id = m.organization_id;
        machine_id = m.machine_id;
        command_id = c;
        stream = s;
        sequence = n;
        bytes = b;
      } in
      add_command_output_rule IsBounded input now st h
        (λ r at_r fits new. output_keeps input st.commands r at_r fits h)
  report_keeps slice m (command_completed r) now =
      let input = record r { error = present r.error } in
      let h' =
        update_keeps (completed_row m.organization_id m.machine_id r.command_id)
          (complete_row slice input) st.commands (λ r. refl) (λ r. (refl, refl)) h in
      mark_command_completed_rule IsBounded slice m.organization_id m.machine_id input st h'
        (λ e. h')

module _ (client : SessionClient) (digest : Digest) (slice : String → String) where
  Transition-IsBounded :
      {cause : Cause} (st later : Store)
      → IsBounded st
      → Transition client digest slice cause st later
      → IsBounded later
  unfolding append log put_machine_authority set_machine_online purge_expired_command_output
      expire_sessions
  Transition-IsBounded st later h unchanged = h
  Transition-IsBounded st later h (session_added p r key fresh now machine may admitted new) = h
  Transition-IsBounded st later h (command_added may p s r key fresh at now s' t clear new held) =
      let row =
        command_insert (command_creation client digest p s r (digest.hash key) fresh now s' t) in
      ((not_clash row st.commands new, h.0), (omega arith, h.1))
  Transition-IsBounded st later h (supervised p s d now may) = rw (audited-commands p d _ _) (
      decide_session_rule (λ later' r. IsBounded later') p.organization_id s d now st h h
        (λ current live. h) h (λ s' same. h))
  Transition-IsBounded st later h (finished o a s outcome now) =
      finish_session_rule IsBounded o a s now st outcome h
        (λ current at_current going idle commands stopped. stopped_keeps o s st commands stopped h)
  Transition-IsBounded st later h (command_cancelled o a c) =
      request_command_cancellation_rule IsBounded o c st a h
        (λ current at_current active. cancel_keeps _ st.commands h)
  Transition-IsBounded st later h (reported m msg now) = report_keeps st h slice m msg now
  Transition-IsBounded st later h (machine_stored authority same) = h
  Transition-IsBounded st later h (machine_offline o m) = h
  Transition-IsBounded st later h (swept now) =
      cancel_commands_keeps
        (returning (overdue now) (change request_end)
          (update (lapsed now) (change (expire_row now)) st.sessions))
        st.commands h
  Transition-IsBounded st later h (sessions_revoked o a m now then ended e) =
      revoke_sessions_rule IsBounded o now a m st then ended
        (revoke_each_rule IsBounded o now
          (λ s later' h'. cancel_keeps (active_in o s.id) later'.commands h')
          (select (revocable o a m) st.sessions) st h)
        (λ m' later' h'. h') e
  Transition-IsBounded st later h (audit_switched works) = h
  Transition-IsBounded st later h (output_purged now) = h

module _ (client : SessionClient) (digest : Digest) (connected : String → Bool)
    (slice : String → String) where
  -- Whatever happens to the Server, the Commands of its database keep different ids, and the bytes that
  -- a Command's row counts, on both streams together, are at most a MiB. The history starts at any
  -- database of which this holds.
  pub run-HasBoundedOutput :
      (actions : List Action) (w : World)
      → HasBoundedOutput w.store.commands
      → HasBoundedOutput (run client digest connected slice actions w).store.commands
  unfolding run
  run-HasBoundedOutput [] w h = h
  run-HasBoundedOutput (a ∷ rest) w h =
      run-HasBoundedOutput rest (step client digest connected slice a w) (
        Transition-IsBounded client digest slice w.store
          (step client digest connected slice a w).store h
          (step-Transition client digest connected slice a w))
