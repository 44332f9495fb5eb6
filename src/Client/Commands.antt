-- ===== src/Client/Commands.antt =====
-- apps/client/src/index.ts: the Commands of the class `Client`, from `startCommand` to their completion.
use odyshell.Base.{
  ℕ, zero, suc, ◌+◌, ◌-◌, Bool, true, false, ◌||◌, Option, none, some, List, [], ◌∷◌, String,
  if◌then◌else◌, ltb, leb, eqb, min, any, find, select, update, remove, length,
}
use odyshell.Base.Arrays.{take}
use odyshell.Protocol.Messages.{CommandStart, command_started, command_output, OutputStream}
use odyshell.Protocol.Session.{CompletedStatus, ℤ, pos}
use odyshell.Client.Journal.{CommandResult, receive, Reception, complete, mark_running, result}
use odyshell.Client.Link.{Link, has, deliver, send_completion, mark_command_output_truncated}
use odyshell.Client.Deadlines.{command_timeout_milliseconds}
use odyshell.Client.Authority.{
  Client, ActiveSession, RunningCommand, has_session_id, has_command_id, of_session, cancelled,
}

-- What `startCommand` does with its result: the journal has it before the Server is told.
abbrev pub complete_and_send : String → CommandResult → (now : ℕ) → Client → Client
complete_and_send command_id outcome now c = record c {
  link =
      send_completion command_id outcome now
        (record c.link { journal = complete command_id outcome c.link.journal });
}

unfoldable pub fail_command : (command_id error : String) (now : ℕ) → Client → Client
fail_command command_id error now c =
    complete_and_send command_id
      (record {
        status = CompletedStatus.failed;
        exit_code = none;
        error = some error;
        output_truncated = false;
      })
      now c

abbrev pub send_previous : String → (now : ℕ) → Option CommandResult → Client → Client
send_previous command_id now none c = c
send_previous command_id now (some previous) c = record c {
  link = send_completion command_id previous now c.link;
}

abbrev pub new_command : CommandStart → (maximum_output_bytes timeout : ℕ) → RunningCommand
new_command message maximum_output_bytes timeout = record {
  command_id = message.command_id;
  session_id = message.session_id;
  cancel_requested = false;
  timed_out = false;
  maximum_output_bytes = maximum_output_bytes;
  timeout_milliseconds = timeout;
  sequence = 0;
  output_bytes = 0;
  output_truncated = false;
}

abbrev pub begin_command : CommandStart → (maximum_output_bytes timeout now : ℕ) → Client → Client
begin_command message maximum_output_bytes timeout now c =
    let started = record c.link { journal = mark_running message.command_id c.link.journal } in
    record c {
      commands = new_command message maximum_output_bytes timeout ∷ c.commands;
      link = (deliver (command_started message.command_id now) started).0;
    }

abbrev pub start_in : CommandStart → (now : ℕ) → ActiveSession → Client → Client
start_in message now session c =
    let policy = c.config.local_policy in
    let maximum = min message.max_output_bytes policy.max_command_output_bytes in
    let timeout =
      command_timeout_milliseconds message.timeout_seconds policy.max_command_timeout_seconds
        session.expires_at now in
    if session.closing || leb session.expires_at now
    then fail_command message.command_id "Session is not active on this Client" now c
    else if leb session.max_concurrent_commands
        (length (select (of_session message.session_id) c.commands))
    then fail_command message.command_id "Local concurrent Command limit reached" now c
    else if ltb maximum 1 || eqb timeout 0
    then fail_command message.command_id "Command exceeds Local Policy or Session expiry" now c
    else begin_command message maximum timeout now c

abbrev pub start_found : CommandStart → (now : ℕ) → Option ActiveSession → Client → Client
start_found message now none c =
    fail_command message.command_id "Session is not active on this Client" now c
start_found message now (some session) c = start_in message now session c

abbrev pub start_received : CommandStart → (now : ℕ) → Reception → Client → Client
start_received message now Reception.completed c =
    send_previous message.command_id now (result message.command_id c.link.journal) c
start_received message now Reception.running c = c
start_received message now Reception.new c =
    start_found message now (find (has_session_id message.session_id) c.sessions) c

-- `startCommand`, up to the call of the executor.
unfoldable pub start_command : CommandStart → (now : ℕ) → Client → Client
start_command message now c =
    let (rows, reception) = receive message.command_id c.link.journal in
    start_received message now reception (record c { link = record c.link { journal = rows } })

abbrev pub put_command : RunningCommand → Client → Client
put_command r c = record c {
  commands =
      update (has_command_id r.command_id)
        (λ old. record old {
          sequence = r.sequence;
          output_bytes = r.output_bytes;
          output_truncated = r.output_truncated;
        })
        c.commands;
}

-- `markOutputTruncated` of a Command's closure
abbrev pub truncate_command : RunningCommand → Link → RunningCommand × Link
truncate_command r l = if r.output_truncated then (r, l) else (
  record r { output_truncated = true },
  if has r.command_id l.output_truncated_commands
      then l
      else mark_command_output_truncated r.command_id l,
)

abbrev pub chunk_bytes : ℕ
chunk_bytes = 262144

unfoldable pub rest_after : ℕ → List ℕ → List ℕ
rest_after zero bytes = bytes
rest_after (suc n) [] = []
rest_after (suc n) (x ∷ bytes) = rest_after n bytes

-- The loop over the accepted bytes, on fuel for one byte a round, which is more than enough, and what
-- follows it.
unfoldable pub emit_loop :
    ℕ
    → OutputStream
    → (accepted : List ℕ) (cut : Bool) → RunningCommand × Link
    → RunningCommand × Link
emit_loop zero stream accepted cut (r, l) = (r, l)
emit_loop (suc k) stream accepted cut (r, l) =
    let chunk = take chunk_bytes accepted in
    let (later, delivered) = deliver (command_output r.command_id r.sequence stream chunk) l in
    let next = record r {
      sequence = r.sequence + 1;
      output_bytes = r.output_bytes + length chunk;
    } in
    let rest = emit_loop k stream (rest_after chunk_bytes accepted) cut (next, later) in
    if eqb (length accepted) 0
    then if cut then truncate_command r l else (r, l)
    else if delivered
    then rest
    else truncate_command r later

-- `emit`
unfoldable pub emit : OutputStream → List ℕ → RunningCommand × Link → RunningCommand × Link
emit stream bytes (r, l) =
    let known = r.output_truncated || has r.command_id l.output_truncated_commands in
    let marked = record r { output_truncated = known } in
    let remaining = r.maximum_output_bytes - r.output_bytes in
    if known
    then (marked, l)
    else if eqb remaining 0
    then truncate_command marked l
    else emit_loop (length bytes + 1) stream (take remaining bytes) (ltb remaining (length bytes))
        (marked, l)

abbrev pub output_found : OutputStream → List ℕ → Option RunningCommand → Client → Client
output_found stream bytes none c = c
output_found stream bytes (some r) c =
    let (later, link) = emit stream bytes (r, c.link) in
    record (put_command later c) { link = link }

-- The executor hands on output of a Command.
unfoldable pub command_output_arrives : String → OutputStream → List ℕ → Client → Client
command_output_arrives command_id stream bytes c =
    output_found stream bytes (find (has_command_id command_id) c.commands) c

-- `PendingCommand.cancel`
unfoldable pub cancel_running : String → Client → Client
cancel_running command_id c = record c {
  commands = update (has_command_id command_id) cancelled c.commands;
}

-- The timer of a Command: it has timed out, and is cancelled.
unfoldable pub command_times_out : String → Client → Client
command_times_out command_id c = record c {
  commands =
      update (has_command_id command_id) (λ r. cancelled (record r { timed_out = true }))
        c.commands;
}

abbrev pub ended : RunningCommand → CommandResult → (now : ℕ) → Client → Client
ended r outcome now c =
    let told = complete_and_send r.command_id outcome now c in
    record told { commands = remove (has_command_id r.command_id) told.commands }

abbrev pub is_zero : ℤ → Bool
is_zero (pos zero) = true
is_zero _ = false

abbrev pub exit_status : RunningCommand → Option ℤ → CompletedStatus
exit_status r exit_code =
    if r.timed_out
    then CompletedStatus.timed_out
    else if r.cancel_requested
    then CompletedStatus.cancelled
    else elim exit_code [
      | none ↦ CompletedStatus.failed
      | some code ↦ if is_zero code then CompletedStatus.succeeded else CompletedStatus.failed
    ]

abbrev pub lost_output : RunningCommand → Client → Bool
lost_output r c = r.output_truncated || has r.command_id c.link.output_truncated_commands

abbrev pub exit_found : Option ℤ → (now : ℕ) → Option RunningCommand → Client → Client
exit_found exit_code now none c = c
exit_found exit_code now (some r) c =
    ended r
      (record {
        status = exit_status r exit_code;
        exit_code = exit_code;
        error = if lost_output r c then some "Output limit reached" else none;
        output_truncated = lost_output r c;
      })
      now c

-- The executor's process has ended.
unfoldable pub command_exits : String → Option ℤ → (now : ℕ) → Client → Client
command_exits command_id exit_code now c =
    exit_found exit_code now (find (has_command_id command_id) c.commands) c

abbrev pub break_status : Bool → RunningCommand → CompletedStatus
break_status termination_unconfirmed r =
    if termination_unconfirmed
    then CompletedStatus.execution_unknown
    else if r.timed_out
    then CompletedStatus.timed_out
    else if r.cancel_requested
    then CompletedStatus.cancelled
    else CompletedStatus.failed

abbrev pub break_found :
    (error : String) (termination_unconfirmed : Bool) (now : ℕ)
    → Option RunningCommand
    → Client
    → Client
break_found error termination_unconfirmed now none c = c
break_found error termination_unconfirmed now (some r) c =
    ended r
      (record {
        status = break_status termination_unconfirmed r;
        exit_code = none;
        error = some error;
        output_truncated = lost_output r c;
      })
      now c

-- The execution throws: the `catch` and the `finally` of `startCommand`.
unfoldable pub command_breaks_off :
    (command_id error : String) (termination_unconfirmed : Bool) (now : ℕ) → Client → Client
command_breaks_off command_id error termination_unconfirmed now c =
    break_found error termination_unconfirmed now (find (has_command_id command_id) c.commands) c

abbrev pub cancel_received : String → (now : ℕ) → Reception → Client → Client
cancel_received command_id now Reception.new c =
    complete_and_send command_id
      (record {
        status = CompletedStatus.cancelled;
        exit_code = none;
        error = some "Command was cancelled before execution started";
        output_truncated = false;
      })
      now c
cancel_received command_id now reception c =
    complete_and_send command_id
      (record {
        status = CompletedStatus.execution_unknown;
        exit_code = none;
        error = some "Command execution state was unavailable when cancellation arrived";
        output_truncated = false;
      })
      now c

abbrev pub cancel_known : String → (now : ℕ) → Option CommandResult → Client → Client
cancel_known command_id now (some previous) c = send_previous command_id now (some previous) c
cancel_known command_id now none c =
    let (rows, reception) = receive command_id c.link.journal in
    cancel_received command_id now reception (record c { link = record c.link { journal = rows } })

unfoldable pub cancel_command : String → (now : ℕ) → Client → Client
cancel_command command_id now c =
    if any (has_command_id command_id) c.commands
    then cancel_running command_id c
    else cancel_known command_id now (result command_id c.link.journal) c
