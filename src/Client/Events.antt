-- ===== src/Client/Events.antt =====
-- apps/client/src/index.ts, quarantine.ts: what can happen to a Client, one event at a time: the Server's
-- messages, its connection, its timers, and what the executor reports.
pub mod Policy
pub mod Sessions
pub mod Starting
pub mod Run
pub mod Over
pub mod Begun
pub mod Once
use odyshell.Base.{
  ℕ, ◌*◌, Bool, true, false, not, ◌&&◌, Option, none, some, List, [], ◌∷◌, String, if◌then◌else◌,
  eqb, min, map, update,
}
use odyshell.Protocol.Messages.{
  ServerMessage, session_open, session_close, command_start, command_cancel, command_acknowledged,
  OutputStream,
}
use odyshell.Protocol.Session.{ℤ}
use odyshell.Client.Journal.{
  Row, CommandResult, acknowledge, recover_interrupted, results_for_reconciliation,
}
use odyshell.Client.Buffer.{MessageBuffer}
use odyshell.Client.Link.{
  Link, delete, deliver, send_completion, flush_buffered_messages,
  mark_unconfirmed_output_truncated,
}
use odyshell.Client.Authority.{
  Client, ClientConfig, RunningCommand, cancelled, open_session, close_session, settle_session,
}
use odyshell.Client.Commands.{
  start_command, cancel_command, command_output_arrives, command_exits, command_breaks_off,
  command_times_out,
}

abbrev empty_buffer : MessageBuffer
empty_buffer = record {
  maximum_messages = 4096;
  maximum_output_bytes = 16777216;
  messages = [];
  output_bytes = 0;
}

-- The constructor and the recovery in `start`: `none` is the error that the Profile is quarantined.
unfoldable pub start_client :
    ClientConfig → (journal : List Row) → (quarantined : Bool) → Option Client
start_client config journal quarantined =
    if quarantined
    then none
    else some (record {
      config = config;
      stopped = false;
      quarantined = false;
      sessions = [];
      closed_sessions = [];
      closing_sessions = [];
      commands = [];
      link = record {
        authenticated = false;
        socket_open = false;
        send_throws = false;
        sent = [];
        buffer = empty_buffer;
        journal = (recover_interrupted journal).0;
        output_truncated_commands = [];
        unconfirmed_output_commands = [];
        reconnect_delay = 1000;
      };
    })

abbrev send_results : List (String × CommandResult) → (now : ℕ) → Link → Link
send_results [] now l = l
send_results ((command_id, result) ∷ entries) now l =
    send_results entries now (send_completion command_id result now l)

-- `reconcileJournalResults`
unfoldable pub reconcile_journal_results : (now : ℕ) → Link → Link
reconcile_journal_results now l = send_results (results_for_reconciliation l.journal) now l

-- The message `authenticated`
unfoldable pub authenticated : (now : ℕ) → Client → Client
authenticated now c = if c.stopped then c else record c {
  link =
      reconcile_journal_results now
        (flush_buffered_messages (record c.link { authenticated = true; reconnect_delay = 1000 }));
}

abbrev pub acknowledged : String → Client → Client
acknowledged command_id c = record c {
  link = record c.link {
    journal = acknowledge command_id c.link.journal;
    unconfirmed_output_commands = delete command_id c.link.unconfirmed_output_commands;
    output_truncated_commands = delete command_id c.link.output_truncated_commands;
  };
}

abbrev pub handle_authenticated : ServerMessage → (now : ℕ) → Client → Client
handle_authenticated (session_open message) now c = open_session message now c
handle_authenticated (session_close session_id reason) now c = close_session session_id reason c
handle_authenticated (command_start message) now c = start_command message now c
handle_authenticated (command_cancel command_id) now c = cancel_command command_id now c
handle_authenticated (command_acknowledged command_id) now c = acknowledged command_id c

-- `handle`, of the messages on Sessions and Commands.
unfoldable pub handle : ServerMessage → (now : ℕ) → Client → Client
handle message now c =
    if c.stopped then c else if c.link.authenticated then handle_authenticated message now c else c

abbrev pub disconnected : Link → Link
disconnected l = record (mark_unconfirmed_output_truncated l) {
  authenticated = false;
  socket_open = false;
}

-- `beginTerminalShutdown`, up to the wait for the messages that are being handled.
unfoldable pub begin_terminal_shutdown : Client → Client
begin_terminal_shutdown c =
    if c.stopped then c else record c { stopped = true; link = disconnected c.link }

-- `beginTerminalFailure`, where the quarantine's file can be written.
unfoldable pub begin_terminal_failure : Client → Client
begin_terminal_failure c = begin_terminal_shutdown (record c { quarantined = true })

-- `terminalMachineClose`
abbrev pub terminal_machine_close : ℕ → Bool
terminal_machine_close code = eqb code 4004

-- The socket closes.
unfoldable pub disconnect : (code : ℕ) → Client → Client
disconnect code c =
    let l = disconnected c.link in
    if terminal_machine_close code
    then begin_terminal_shutdown (record c { link = l })
    else if c.stopped
    then record c { link = l }
    else record c { link = record l { reconnect_delay = min (l.reconnect_delay * 2) 30000 } }

-- `connect`
unfoldable pub connect : Client → Client
connect c =
    if c.stopped
    then c
    else record c { link = record c.link { socket_open = true; authenticated = false } }

-- `stop`, up to the same wait.
unfoldable pub stop : Client → Client
stop c = if c.stopped then c else record c {
  stopped = true;
  link = record (mark_unconfirmed_output_truncated c.link) { authenticated = false };
}

-- The first half of `dropLocalAuthority`; the Commands go as they end.
unfoldable pub drop_local_authority : Client → Client
drop_local_authority c =
    if not c.stopped then c else record c { sessions = []; commands = map cancelled c.commands }

pub data Event : Type 0 where
  receives : ServerMessage → (now : ℕ) → Event
  is_authenticated : (now : ℕ) → Event
  connects : Event
  disconnects : (code : ℕ) → Event
  stops drops_authority : Event
  session_expires session_settles : (session_id : String) → Event
  session_cleanup_fails : Event
  outputs : (command_id : String) → OutputStream → (bytes : List ℕ) → Event
  exits : (command_id : String) → Option ℤ → (now : ℕ) → Event
  breaks_off : (command_id error : String) (termination_unconfirmed : Bool) (now : ℕ) → Event
  times_out : (command_id : String) → Event
  socket_refuses : (refuses : Bool) → Event

unfoldable pub step : Event → Client → Client
step (receives message now) c = handle message now c
step (is_authenticated now) c = authenticated now c
step connects c = connect c
step (disconnects code) c = disconnect code c
step stops c = stop c
step drops_authority c = drop_local_authority c
step (session_expires session_id) c = close_session session_id "expired" c
step (session_settles session_id) c = settle_session session_id c
step session_cleanup_fails c = begin_terminal_failure c
step (outputs command_id stream bytes) c = command_output_arrives command_id stream bytes c
step (exits command_id exit_code now) c = command_exits command_id exit_code now c
step (breaks_off command_id error termination_unconfirmed now) c =
    let later = command_breaks_off command_id error termination_unconfirmed now c in
    if termination_unconfirmed then begin_terminal_failure later else later
step (times_out command_id) c = command_times_out command_id c
step (socket_refuses refuses) c = record c { link = record c.link { send_throws = refuses } }

unfoldable pub run : List Event → Client → Client
run [] c = c
run (event ∷ events) c = run events (step event c)
