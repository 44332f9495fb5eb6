-- ===== src/Client/Events/Run.antt =====
-- apps/client/src/index.ts: every event keeps the Client to its Local Policy.
use odyshell.Base.{
  ℕ, ◌≡◌, ◌≢◌, refl, inl, inr, Bool, true, false, Option, none, some, List, [], ◌∷◌, String,
  if◌then◌else◌, find, any, arith, Bool-cases,
}
use odyshell.Protocol.Messages.{
  ServerMessage, OutputStream, session_open, session_close, command_start, command_cancel,
  command_acknowledged,
}
use odyshell.Protocol.Session.{ℤ}
use odyshell.Client.Journal.{Row, Reception, receive, result, CommandResult}
use odyshell.Client.Authority.{Client, RunningCommand, has_command_id, cancelled}
use odyshell.Client.Commands.{
  cancel_running, cancel_command, cancel_known, cancel_received, command_output_arrives,
  output_found, emit, command_exits, exit_found, command_breaks_off, break_found, command_times_out,
}
use odyshell.Client.Events.{
  Event, step, run, handle, handle_authenticated, authenticated, connect, disconnect, stop,
  drop_local_authority, begin_terminal_shutdown, begin_terminal_failure, terminal_machine_close,
  disconnected,
}
use odyshell.Client.Events.Policy.{IsWithin, IsWithinPolicy, update-IsWithin, remove-IsWithin}
use odyshell.Client.Events.Sessions.{
  open_session-IsWithinPolicy, close_session-IsWithinPolicy, settle_session-IsWithinPolicy,
}
use odyshell.Client.Events.{
  receives, is_authenticated, connects, disconnects, stops, drops_authority, session_expires,
  session_settles, session_cleanup_fails, outputs, exits, breaks_off, times_out, socket_refuses,
  reconcile_journal_results,
}
use odyshell.Client.Link.{flush_buffered_messages, mark_unconfirmed_output_truncated}
use odyshell.Client.Events.Starting.{start_command-IsWithinPolicy}

true-ne-false : true ≢ false
true-ne-false e = cc

-- A Client that stops keeps to its Local Policy, with its Sessions or without.
stopped-IsWithin :
    (c : Client) → IsWithinPolicy c → IsWithin c.config true c.sessions c.closed_sessions c.commands
stopped-IsWithin c h = record {
  few = h.few;
  unique = h.unique;
  kept = h.kept;
  homes = λ e. elim (true-ne-false e) [ ];
}

shutdown-IsWithinPolicy :
    (c : Client) → IsWithinPolicy c → IsWithinPolicy (begin_terminal_shutdown c)
unfolding begin_terminal_shutdown
shutdown-IsWithinPolicy c h = elim (Bool-cases c.stopped) [
  | inl e ↦ rw (e, begin_terminal_shutdown) (stopped-IsWithin c h)
  | inr e ↦ rw (e, begin_terminal_shutdown) (stopped-IsWithin c h)
]

failure-IsWithinPolicy : (c : Client) → IsWithinPolicy c → IsWithinPolicy (begin_terminal_failure c)
unfolding begin_terminal_failure
failure-IsWithinPolicy c h = shutdown-IsWithinPolicy (record c { quarantined = true }) h

disconnect-IsWithinPolicy :
    (code : ℕ) (c : Client) → IsWithinPolicy c → IsWithinPolicy (disconnect code c)
unfolding disconnect
disconnect-IsWithinPolicy code c h = elim (Bool-cases (terminal_machine_close code)) [
  | inl e ↦ rw (e, disconnect) (shutdown-IsWithinPolicy (record c { link = disconnected c.link }) h)
  | inr e ↦ elim (Bool-cases c.stopped) [
    | inl k ↦ rw (e, disconnect, k) (stopped-IsWithin c h)
    | inr k ↦ rw (e, disconnect, k) (rw k at h)
  ]
]

drop-IsWithinPolicy : (c : Client) → IsWithinPolicy c → IsWithinPolicy (drop_local_authority c)
unfolding drop_local_authority
drop-IsWithinPolicy c h = elim (Bool-cases c.stopped) [
  | inr e ↦ rw (e, drop_local_authority) (rw e at h)
  | inl e ↦
      rw (e, drop_local_authority)
        (record {
          few = omega arith;
          unique = tt;
          kept = tt;
          homes = λ k. elim (true-ne-false k) [ ];
        })
]

output-IsWithinPolicy :
    (command_id : String) (stream : OutputStream) (bytes : List ℕ) (c : Client)
    → IsWithinPolicy c
    → IsWithinPolicy (command_output_arrives command_id stream bytes c)
unfolding command_output_arrives
output-IsWithinPolicy i stream bytes c h = go (find (has_command_id i) c.commands)
  where
    go : (o : Option RunningCommand) → IsWithinPolicy (output_found stream bytes o c)
    go none = h
    go (some r) =
        let later = (emit stream bytes (r, c.link)).0 in
        update-IsWithin c.config c.stopped c.sessions c.closed_sessions
          (has_command_id later.command_id)
          (λ old. record old {
            sequence = later.sequence;
            output_bytes = later.output_bytes;
            output_truncated = later.output_truncated;
          })
          c.commands (λ x. refl) h

exits-IsWithinPolicy :
    (command_id : String) (exit_code : Option ℤ) (now : ℕ) (c : Client)
    → IsWithinPolicy c
    → IsWithinPolicy (command_exits command_id exit_code now c)
unfolding command_exits
exits-IsWithinPolicy i exit_code now c h = go (find (has_command_id i) c.commands)
  where
    go : (o : Option RunningCommand) → IsWithinPolicy (exit_found exit_code now o c)
    go none = h
    go (some r) =
        remove-IsWithin c.config c.stopped c.sessions c.closed_sessions
          (has_command_id r.command_id) c.commands h

breaks_off-IsWithinPolicy :
    (command_id error : String) (unconfirmed : Bool) (now : ℕ) (c : Client)
    → IsWithinPolicy c
    → IsWithinPolicy (command_breaks_off command_id error unconfirmed now c)
unfolding command_breaks_off
breaks_off-IsWithinPolicy i error unconfirmed now c h = go (find (has_command_id i) c.commands)
  where
    go : (o : Option RunningCommand) → IsWithinPolicy (break_found error unconfirmed now o c)
    go none = h
    go (some r) =
        remove-IsWithin c.config c.stopped c.sessions c.closed_sessions
          (has_command_id r.command_id) c.commands h

cancel_command-IsWithinPolicy :
    (command_id : String) (now : ℕ) (c : Client)
    → IsWithinPolicy c
    → IsWithinPolicy (cancel_command command_id now c)
unfolding cancel_command cancel_running
cancel_command-IsWithinPolicy i now c h = elim (Bool-cases (any (has_command_id i) c.commands)) [
  | inl runs ↦
      rw (runs, cancel_command)
        (update-IsWithin c.config c.stopped c.sessions c.closed_sessions (has_command_id i)
          cancelled c.commands (λ r. refl) h)
  | inr ended ↦ rw (ended, cancel_command) (known (result i c.link.journal))
]
  where
    received :
        (rows : List Row) (reception : Reception)
        → IsWithinPolicy
            (cancel_received i now reception (record c { link = record c.link { journal = rows } }))
    received rows Reception.new = h
    received rows Reception.running = h
    received rows Reception.completed = h

    known : (o : Option CommandResult) → IsWithinPolicy (cancel_known i now o c)
    known (some previous) = h
    known none = received (receive i c.link.journal).0 (receive i c.link.journal).1

handle-IsWithinPolicy :
    (message : ServerMessage) (now : ℕ) (c : Client)
    → IsWithinPolicy c
    → IsWithinPolicy (handle message now c)
unfolding handle
handle-IsWithinPolicy message now c h = heard c.stopped c.link.authenticated refl
  where
    handled :
        (message : ServerMessage)
        → c.stopped ≡ false
        → IsWithinPolicy (handle_authenticated message now c)
    handled (session_open m) going = open_session-IsWithinPolicy m now c going h
    handled (session_close i reason) going = close_session-IsWithinPolicy i reason c h
    handled (command_start m) going = start_command-IsWithinPolicy m now c h
    handled (command_cancel i) going = cancel_command-IsWithinPolicy i now c h
    handled (command_acknowledged i) going = h

    heard :
        (stopped known : Bool)
        → c.stopped ≡ stopped
        → IsWithinPolicy
            (if stopped then c else if known then handle_authenticated message now c else c)
    heard true known e = h
    heard false true e = handled message e
    heard false false e = h

if-IsWithinPolicy :
    (b : Bool) (c d : Client)
    → IsWithinPolicy c
    → IsWithinPolicy d
    → IsWithinPolicy (if b then c else d)
if-IsWithinPolicy true c d h k = h
if-IsWithinPolicy false c d h k = k

step-IsWithinPolicy :
    (event : Event) (c : Client) → IsWithinPolicy c → IsWithinPolicy (step event c)
unfolding step authenticated connect stop command_times_out
step-IsWithinPolicy (receives message now) c h = handle-IsWithinPolicy message now c h
step-IsWithinPolicy (is_authenticated now) c h =
    if-IsWithinPolicy c.stopped c
      (record c {
        link = reconcile_journal_results now (
            flush_buffered_messages
              (record c.link { authenticated = true; reconnect_delay = 1000 }));
      })
      h h
step-IsWithinPolicy connects c h =
    if-IsWithinPolicy c.stopped c
      (record c { link = record c.link { socket_open = true; authenticated = false } }) h h
step-IsWithinPolicy (disconnects code) c h = disconnect-IsWithinPolicy code c h
step-IsWithinPolicy stops c h =
    if-IsWithinPolicy c.stopped c
      (record c {
        stopped = true;
        link = record (mark_unconfirmed_output_truncated c.link) { authenticated = false };
      })
      h (stopped-IsWithin c h)
step-IsWithinPolicy drops_authority c h = drop-IsWithinPolicy c h
step-IsWithinPolicy (session_expires i) c h = close_session-IsWithinPolicy i "expired" c h
step-IsWithinPolicy (session_settles i) c h = settle_session-IsWithinPolicy i c h
step-IsWithinPolicy session_cleanup_fails c h = failure-IsWithinPolicy c h
step-IsWithinPolicy (outputs i stream bytes) c h = output-IsWithinPolicy i stream bytes c h
step-IsWithinPolicy (exits i exit_code now) c h = exits-IsWithinPolicy i exit_code now c h
step-IsWithinPolicy (breaks_off i error unconfirmed now) c h =
    let later = command_breaks_off i error unconfirmed now c in
    let kept = breaks_off-IsWithinPolicy i error unconfirmed now c h in
    if-IsWithinPolicy unconfirmed (begin_terminal_failure later) later
      (failure-IsWithinPolicy later kept) kept
step-IsWithinPolicy (times_out i) c h =
    update-IsWithin c.config c.stopped c.sessions c.closed_sessions (has_command_id i)
      (λ r. cancelled (record r { timed_out = true })) c.commands (λ r. refl) h
step-IsWithinPolicy (socket_refuses refuses) c h = h

-- Whatever happens to a Client, its Sessions are no more than its Local Policy allows, each is of the
-- policy's Organization and the Client's Profile and lets no more Commands run than the policy, no
-- Session has more Commands than its own limit, and a Session that was closed is closing. The Client
-- starts as one of which this holds, as a new Client is.
pub run-IsWithinPolicy :
    (events : List Event) (c : Client) → IsWithinPolicy c → IsWithinPolicy (run events c)
unfolding run
run-IsWithinPolicy [] c h = h
run-IsWithinPolicy (event ∷ events) c h =
    run-IsWithinPolicy events (step event c) (step-IsWithinPolicy event c h)
