-- ===== src/Client/EventTests.antt =====
-- The Client on concrete inputs.
use odyshell.Base.{
  ◌+◌, ◌-◌, ◌*◌, ◌≤◌, ◌≡◌, ◌⊎◌, refl, true, false, none, some, List, [], ◌∷◌, String, arith, any,
  find, string_discrete, select, update, remove,
}
use odyshell.Protocol.Policy.{LocalPolicy, local_session_decision}
use odyshell.Protocol.Messages.{
  SessionOpen, CommandStart, session_open, session_close, command_start, stdout, session_closed,
  command_output,
}
use odyshell.Protocol.Session.{pos}
use odyshell.Client.Journal.{
  Row, completed, receive, mark_running, complete, result, mark_output_unconfirmed,
}
use odyshell.Client.Buffer.{
  MessageBuffer, enqueue, find_output, mark_truncated, remove_at, mark_entries,
}
use odyshell.Client.Buffer.Bounds.{IsBounded, enqueue-IsBounded, mark_truncated-IsAlike, total}
use odyshell.Client.Deadlines.{
  adjusted_session_deadline, adjusted_session_deadline_span, command_timeout_milliseconds,
  command_timeout_milliseconds_bounds, max_client_clock_skew,
}
use odyshell.Client.Link.{
  before_output_discard, deliver, send_completion, add, mark_command_output_unconfirmed,
}
use odyshell.Client.Authority.{
  Client, ClientConfig, RunningCommand, has_command_id, open_session, send_session_opened,
  close_session, settle_session,
}
use odyshell.Client.Commands.{
  start_command, fail_command, rest_after, emit, emit_loop, command_exits, command_output_arrives,
}
use odyshell.Client.Emission.{emit-Counts}
use odyshell.Client.Events.{Event, receives, outputs, exits, session_settles, run, step, handle}
use odyshell.Client.Events.Policy.{IsWithinPolicy}
use odyshell.Client.Events.Run.{run-IsWithinPolicy}
use odyshell.Client.Events.Once.{run_known_command}

abbrev policy : LocalPolicy
policy = record {
  organization_id = "org";
  max_session_duration_seconds = 3600;
  max_concurrent_sessions = 1;
  max_concurrent_commands = 1;
  max_command_timeout_seconds = 600;
  max_command_output_bytes = 4;
  allow_remote_approval = true;
}

abbrev config : ClientConfig
config = record {
  session_profile_id = "default";
  operating_system_user = "root";
  local_policy = policy;
}

abbrev empty_buffer : MessageBuffer
empty_buffer = record {
  maximum_messages = 2;
  maximum_output_bytes = 8;
  messages = [];
  output_bytes = 0;
}

abbrev finished : Row
finished = record {
  id = "c0";
  state = completed;
  result = none;
  output_truncated = false;
  output_unconfirmed = false;
}

abbrev client : Client
client = record {
  config = config;
  stopped = false;
  quarantined = false;
  sessions = [];
  closed_sessions = [];
  closing_sessions = [];
  commands = [];
  link = record {
    authenticated = true;
    socket_open = true;
    send_throws = false;
    sent = [];
    buffer = empty_buffer;
    journal = finished ∷ [];
    output_truncated_commands = [];
    unconfirmed_output_commands = [];
    reconnect_delay = 1000;
  };
}

abbrev opening : SessionOpen
opening = record {
  session_id = "s1";
  organization_id = "org";
  agent_id = "agent";
  client_profile_id = "default";
  expires_at = 60000;
  max_concurrent_commands = 1;
  server_time = 10000;
}

abbrev start_of : String → CommandStart
start_of i = record {
  command_id = i;
  session_id = "s1";
  command = "ls";
  cwd = none;
  timeout_seconds = 5;
  max_output_bytes = 100;
}

abbrev events : List Event
events =
    receives (session_open opening) 10000
    ∷ receives (command_start (start_of "c1")) 10001
    ∷ receives (command_start (start_of "c2")) 10002
    ∷ outputs "c1" stdout (1 ∷ 2 ∷ 3 ∷ [])
    ∷ receives (session_close "s1" "done") 10003
    ∷ exits "c1" (some (pos 0)) 10004
    ∷ session_settles "s1"
    ∷ receives (session_open opening) 10005
    ∷ receives (command_start (start_of "c0")) 10006
    ∷ []

client-IsWithinPolicy : IsWithinPolicy client
client-IsWithinPolicy = record { few = omega arith; unique = tt; kept = tt; homes = λ going. tt }

run-IsWithinPolicy_example : IsWithinPolicy (run events client)
run-IsWithinPolicy_example = run-IsWithinPolicy events client client-IsWithinPolicy

run_known_command_example : any (has_command_id "c0") (run events client).commands ≡ false
unfolding any string_discrete
run_known_command_example =
    run_known_command "c0" events client refl refl
      (tt, (tt, (tt, (tt, (tt, (tt, (tt, (tt, (tt, tt)))))))))

adjusted_session_deadline_span_example :
    (70000 - 20000 ≡ 60000 - 10000)
    × (70000 ≤ 60000 + max_client_clock_skew)
    × (60000 ≤ 70000 + max_client_clock_skew)
unfolding adjusted_session_deadline
adjusted_session_deadline_span_example =
    adjusted_session_deadline_span 60000 10000 20000 70000 refl (omega arith)

command_timeout_milliseconds_bounds_example :
    (let timeout = command_timeout_milliseconds 5 600 60000 58000 in
      (timeout ≤ 60000 - 58000) × (timeout ≤ 5 * 1000) × (timeout ≤ 600 * 1000))
command_timeout_milliseconds_bounds_example = command_timeout_milliseconds_bounds 5 600 60000 58000

abbrev full_buffer : MessageBuffer
full_buffer = record empty_buffer {
  messages =
      record { message = session_closed "s0" "done"; output_bytes = 0 }
      ∷ record { message = command_output "c1" 0 stdout (1 ∷ 2 ∷ []); output_bytes = 2 }
      ∷ [];
  output_bytes = 2;
}

full_buffer-IsBounded : IsBounded full_buffer
unfolding total
full_buffer-IsBounded = record {
  few = omega arith;
  sized = (refl, (refl, tt));
  counted = refl;
  small = omega arith;
}

enqueue-IsBounded_example :
    IsBounded
      (enqueue before_output_discard (session_closed "s1" "done") (full_buffer, client.link)).0.0
enqueue-IsBounded_example =
    enqueue-IsBounded before_output_discard (session_closed "s1" "done") full_buffer client.link
      (λ c b l. mark_truncated-IsAlike c b) (omega arith) full_buffer-IsBounded

-- The output gives way.
output_gives_way :
    (enqueue before_output_discard
      (session_closed "s1" "done")
      (full_buffer, client.link)).0.0.messages
    ≡ record { message = session_closed "s0" "done"; output_bytes = 0 }
      ∷ record { message = session_closed "s1" "done"; output_bytes = 0 }
      ∷ []
unfolding enqueue find_output remove_at mark_truncated mark_entries
output_gives_way = refl

no_command_left : (run events client).commands ≡ []
unfolding run step handle open_session send_session_opened start_command emit emit_loop
    command_exits command_output_arrives deliver send_completion add mark_command_output_unconfirmed
    any find string_discrete select update remove receive mark_running complete close_session
    adjusted_session_deadline command_timeout_milliseconds local_session_decision
    mark_output_unconfirmed settle_session fail_command rest_after result
no_command_left = refl

abbrev running_command : RunningCommand
running_command = record {
  command_id = "c1";
  session_id = "s1";
  cancel_requested = false;
  timed_out = false;
  maximum_output_bytes = 4;
  timeout_milliseconds = 5000;
  sequence = 0;
  output_bytes = 2;
  output_truncated = false;
}

emit-Counts_example :
    (let later = (emit stdout (1 ∷ 2 ∷ 3 ∷ []) (running_command, client.link)).0 in
      (later.output_bytes ≤ 4) × ((later.output_truncated ≡ true) ⊎ (later.output_bytes ≡ 2 + 3)))
emit-Counts_example = emit-Counts stdout (1 ∷ 2 ∷ 3 ∷ []) running_command client.link (omega arith)
