-- ===== src/Client/Events/Once.antt =====
-- apps/client/src/index.ts, journal.ts: a Command that ended does not run again.
use odyshell.Base.{
  ℕ, zero, suc, ◌+◌, ◌-◌, ◌≡◌, ◌≢◌, ◌∙◌, refl, inl, inr, Bool, true, false, not, ◌||◌, Option, none,
  some, List, [], ◌∷◌, String, if◌then◌else◌, eqb, find, any, any-map, length, All, Bool-cases,
}
use odyshell.Base.Arrays.{take}
use odyshell.Protocol.Messages.{
  ServerMessage, OutputStream, session_open, session_close, command_start, command_cancel,
  command_acknowledged, command_output,
}
use odyshell.Protocol.Session.{ℤ}
use odyshell.Client.Journal.{
  Reception, receive, result, CommandResult, has_id, results_for_reconciliation,
}
use odyshell.Client.Journal.Knowledge.{receive-IsKnown, acknowledge-IsKnown}
use odyshell.Client.Link.{
  Link, deliver, send_completion, has, flush_buffered_messages, mark_command_output_truncated,
}
use odyshell.Client.Link.Records.{
  Records, deliver-Records, send_completion-Records, truncated-Records,
  unconfirmed_truncated-Records, flush_buffered_messages-Records,
}
use odyshell.Client.Authority.{Client, RunningCommand, has_command_id, cancelled}
use odyshell.Client.Commands.{
  cancel_running, cancel_command, cancel_known, cancel_received, chunk_bytes, rest_after,
  command_output_arrives, output_found, emit, emit_loop, truncate_command, command_exits,
  exit_found, command_breaks_off, break_found, command_times_out,
}
use odyshell.Client.Events.{
  Event, step, run, handle, handle_authenticated, authenticated, connect, disconnect, stop,
  drop_local_authority, begin_terminal_shutdown, begin_terminal_failure, terminal_machine_close,
  send_results, receives, is_authenticated, connects, disconnects, stops, drops_authority,
  session_expires, session_settles, session_cleanup_fails, outputs, exits, breaks_off, times_out,
  socket_refuses, reconcile_journal_results,
}
use odyshell.Client.Events.Over.{
  IsOver, completed-IsOver, updated-IsOver, removed-IsOver, open_session-IsOver,
}
use odyshell.Client.Events.Begun.{
  close_session-IsOver, settle_session-IsOver, start_command-IsOver, send_previous-IsOver,
}

module _ (i : String) where
  cancel_command-IsOver :
      (id : String) (now : ℕ) (c : Client) → IsOver i c → IsOver i (cancel_command id now c)
  unfolding cancel_command cancel_running
  cancel_command-IsOver id now c h = elim (Bool-cases (any (has_command_id id) c.commands)) [
    | inl runs ↦
        rw (runs, cancel_command)
          (updated-IsOver i (has_command_id id) cancelled c c.link (λ r. refl) h.known h)
    | inr ended ↦ rw (ended, cancel_command) (known (result id c.link.journal))
  ]
    where
      later :
          IsOver i (record c { link = record c.link { journal = (receive id c.link.journal).0 } })
      later = record { known = receive-IsKnown i id c.link.journal h.known; idle = h.idle }

      received :
          (r : Reception)
          → IsOver i (
              cancel_received id now r
                (record c { link = record c.link { journal = (receive id c.link.journal).0 } }))
      received Reception.new = completed-IsOver i id _ now _ later
      received Reception.running = completed-IsOver i id _ now _ later
      received Reception.completed = completed-IsOver i id _ now _ later

      known : (o : Option CommandResult) → IsOver i (cancel_known id now o c)
      known (some previous) = send_previous-IsOver i id now (some previous) c h
      known none = received (receive id c.link.journal).1

  abbrev Keeps : RunningCommand × Link → Type 0
  Keeps (r, l) = Records i l

  if-Keeps :
      (b : Bool) (x y : RunningCommand × Link) → Keeps x → Keeps y → Keeps (if b then x else y)
  if-Keeps true x y h k = h
  if-Keeps false x y h k = k

  truncate_command-Keeps :
      (r : RunningCommand) (l : Link) → Records i l → Keeps (truncate_command r l)
  truncate_command-Keeps r l h =
      if-Keeps r.output_truncated (r, l) _ h (go (has r.command_id l.output_truncated_commands))
    where
      go :
          (marked : Bool)
          → Records i (if marked then l else mark_command_output_truncated r.command_id l)
      go true = h
      go false = truncated-Records i r.command_id l h

  emit_loop-Keeps :
      (k : ℕ) (stream : OutputStream) (accepted : List ℕ) (cut : Bool) (r : RunningCommand)
      (l : Link)
      → Records i l
      → Keeps (emit_loop k stream accepted cut (r, l))
  unfolding emit_loop
  emit_loop-Keeps zero stream accepted cut r l h = h
  emit_loop-Keeps (suc k) stream accepted cut r l h =
      let chunk = take chunk_bytes accepted in
      let told = deliver (command_output r.command_id r.sequence stream chunk) l in
      let sent = deliver-Records i (command_output r.command_id r.sequence stream chunk) l h in
      if-Keeps (eqb (length accepted) 0) _ _
        (if-Keeps cut (truncate_command r l) (r, l) (truncate_command-Keeps r l h) h)
        (if-Keeps told.1 _ (truncate_command r told.0)
          (emit_loop-Keeps k stream (rest_after chunk_bytes accepted) cut _ told.0 sent)
          (truncate_command-Keeps r told.0 sent))

  emit-Keeps :
      (stream : OutputStream) (bytes : List ℕ) (r : RunningCommand) (l : Link)
      → Records i l
      → Keeps (emit stream bytes (r, l))
  unfolding emit
  emit-Keeps stream bytes r l h =
      let remaining = r.maximum_output_bytes - r.output_bytes in
      if-Keeps (r.output_truncated || has r.command_id l.output_truncated_commands) _ _ h (
        if-Keeps (eqb remaining 0) _ _ (truncate_command-Keeps _ l h)
          (emit_loop-Keeps (length bytes + 1) stream (take remaining bytes) _ _ l h))

  output-IsOver :
      (id : String) (stream : OutputStream) (bytes : List ℕ) (c : Client)
      → IsOver i c
      → IsOver i (command_output_arrives id stream bytes c)
  unfolding command_output_arrives
  output-IsOver id stream bytes c h = go (find (has_command_id id) c.commands)
    where
      go : (o : Option RunningCommand) → IsOver i (output_found stream bytes o c)
      go none = h
      go (some r) =
          updated-IsOver i _ _ c _ (λ x. refl) (emit-Keeps stream bytes r c.link h.known) h

  exits-IsOver :
      (id : String) (exit_code : Option ℤ) (now : ℕ) (c : Client)
      → IsOver i c
      → IsOver i (command_exits id exit_code now c)
  unfolding command_exits
  exits-IsOver id exit_code now c h = go (find (has_command_id id) c.commands)
    where
      go : (o : Option RunningCommand) → IsOver i (exit_found exit_code now o c)
      go none = h
      go (some r) = removed-IsOver i _ _ (completed-IsOver i r.command_id _ now c h)

  breaks_off-IsOver :
      (id error : String) (unconfirmed : Bool) (now : ℕ) (c : Client)
      → IsOver i c
      → IsOver i (command_breaks_off id error unconfirmed now c)
  unfolding command_breaks_off
  breaks_off-IsOver id error unconfirmed now c h = go (find (has_command_id id) c.commands)
    where
      go : (o : Option RunningCommand) → IsOver i (break_found error unconfirmed now o c)
      go none = h
      go (some r) = removed-IsOver i _ _ (completed-IsOver i r.command_id _ now c h)

  if-IsOver : (b : Bool) (c d : Client) → IsOver i c → IsOver i d → IsOver i (if b then c else d)
  if-IsOver true c d h k = h
  if-IsOver false c d h k = k

  shutdown-IsOver : (c : Client) → IsOver i c → IsOver i (begin_terminal_shutdown c)
  unfolding begin_terminal_shutdown
  shutdown-IsOver c h =
      if-IsOver c.stopped c _ h
        (record { known = unconfirmed_truncated-Records i c.link h.known; idle = h.idle })

  failure-IsOver : (c : Client) → IsOver i c → IsOver i (begin_terminal_failure c)
  unfolding begin_terminal_failure
  failure-IsOver c h = shutdown-IsOver _ (record { known = h.known; idle = h.idle })

  disconnect-IsOver : (code : ℕ) (c : Client) → IsOver i c → IsOver i (disconnect code c)
  unfolding disconnect
  disconnect-IsOver code c h =
      let known = unconfirmed_truncated-Records i c.link h.known in
      if-IsOver (terminal_machine_close code) _ _
        (shutdown-IsOver _ (record { known = known; idle = h.idle }))
        (if-IsOver c.stopped _ _ (record { known = known; idle = h.idle })
          (record { known = known; idle = h.idle }))

  send_results-Records :
      (entries : List (String × CommandResult)) (now : ℕ) (l : Link)
      → Records i l
      → Records i (send_results entries now l)
  send_results-Records [] now l h = h
  send_results-Records ((id, r) ∷ entries) now l h =
      send_results-Records entries now (send_completion id r now l)
        (send_completion-Records i id r now l h)

  reconcile_journal_results-Records :
      (now : ℕ) (l : Link) → Records i l → Records i (reconcile_journal_results now l)
  unfolding reconcile_journal_results
  reconcile_journal_results-Records now l h =
      send_results-Records (results_for_reconciliation l.journal) now l h

  authenticated-IsOver : (now : ℕ) (c : Client) → IsOver i c → IsOver i (authenticated now c)
  unfolding authenticated
  authenticated-IsOver now c h =
      let ready : Link = record c.link { authenticated = true; reconnect_delay = 1000 } in
      let flushed = flush_buffered_messages ready in
      if-IsOver c.stopped c (record c { link = reconcile_journal_results now flushed }) h
        (record {
          known =
              reconcile_journal_results-Records now flushed
                (flush_buffered_messages-Records i ready h.known);
          idle = h.idle;
        })

  -- The Server does not acknowledge this Command.
  abbrev pub IsOther : Event → Type 0
  IsOther (receives (command_acknowledged id) now) = id ≢ i
  IsOther event = Unit

  handled-IsOver :
      (message : ServerMessage) (now : ℕ) (c : Client)
      → IsOther (receives message now)
      → IsOver i c
      → IsOver i (handle_authenticated message now c)
  handled-IsOver (session_open m) now c other h = open_session-IsOver i m now c h
  handled-IsOver (session_close id reason) now c other h = close_session-IsOver i id reason c h
  handled-IsOver (command_start m) now c other h = start_command-IsOver i m now c h
  handled-IsOver (command_cancel id) now c other h = cancel_command-IsOver id now c h
  handled-IsOver (command_acknowledged id) now c other h = record {
    known = acknowledge-IsKnown i id c.link.journal other h.known;
    idle = h.idle;
  }

  step-IsOver : (event : Event) (c : Client) → IsOther event → IsOver i c → IsOver i (step event c)
  unfolding step handle connect stop drop_local_authority command_times_out
  step-IsOver (receives message now) c other h =
      if-IsOver c.stopped c _ h
        (if-IsOver c.link.authenticated _ c (handled-IsOver message now c other h) h)
  step-IsOver (is_authenticated now) c other h = authenticated-IsOver now c h
  step-IsOver connects c other h =
      if-IsOver c.stopped c _ h (record { known = h.known; idle = h.idle })
  step-IsOver (disconnects code) c other h = disconnect-IsOver code c h
  step-IsOver stops c other h =
      if-IsOver c.stopped c _ h
        (record { known = unconfirmed_truncated-Records i c.link h.known; idle = h.idle })
  step-IsOver drops_authority c other h = if-IsOver (not c.stopped) c _ h (record {
    known = h.known;
    idle = any-map (λ r. r.command_id) cancelled i c.commands (λ r. refl) ∙ h.idle;
  })
  step-IsOver (session_expires id) c other h = close_session-IsOver i id "expired" c h
  step-IsOver (session_settles id) c other h = settle_session-IsOver i id c h
  step-IsOver session_cleanup_fails c other h = failure-IsOver c h
  step-IsOver (outputs id stream bytes) c other h = output-IsOver id stream bytes c h
  step-IsOver (exits id exit_code now) c other h = exits-IsOver id exit_code now c h
  step-IsOver (breaks_off id error unconfirmed now) c other h =
      let kept = breaks_off-IsOver id error unconfirmed now c h in
      if-IsOver unconfirmed _ _ (failure-IsOver _ kept) kept
  step-IsOver (times_out id) c other h = updated-IsOver i _ _ c c.link (λ r. refl) h.known h
  step-IsOver (socket_refuses refuses) c other h = record { known = h.known; idle = h.idle }

  run-IsOver :
      (events : List Event) (c : Client) → All IsOther events → IsOver i c → IsOver i (run events c)
  unfolding run
  run-IsOver [] c others h = h
  run-IsOver (event ∷ events) c (other, others) h =
      run-IsOver events (step event c) others (step-IsOver event c other h)

-- A Command that the journal knows and that is not running never runs again, whatever happens to the
-- Client, until the Server acknowledges its completion.
pub run_known_command :
    (i : String) (events : List Event) (c : Client)
    → any (has_id i) c.link.journal ≡ true
    → any (has_command_id i) c.commands ≡ false
    → All (IsOther i) events
    → any (has_command_id i) (run events c).commands ≡ false
run_known_command i events c known idle others =
    let h = run-IsOver i events c others (record { known = known; idle = idle }) in h.idle
