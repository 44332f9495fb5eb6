-- ===== src/Client/Link.antt =====
-- apps/client/src/index.ts: the part of the class `Client` that sends messages, keeps those that cannot be
-- sent, and records which Commands lost output.
pub mod Records
use odyshell.Base.{
  ℕ, ◌+◌, ◌*◌, Bool, true, false, not, ◌&&◌, ◌||◌, Option, none, some, List, [], ◌∷◌, ◌++◌, String,
  ◌==◌, if◌then◌else◌, ltb, min, any, remove, is_some, length,
}
use odyshell.Protocol.Messages.{ClientMessage, CommandCompleted, command_completed}
use odyshell.Client.Journal.{Row, CommandResult, mark_output_truncated, mark_output_unconfirmed}
use odyshell.Client.Buffer.{
  Buffered, MessageBuffer, output_message, mark_truncated, enqueue, is_accepted, EnqueueResult,
  shift,
}

pub record Link : Type 0 where
  pub authenticated : Bool
  pub socket_open : Bool
  -- An open socket may refuse to send.
  pub send_throws : Bool
  pub sent : List ClientMessage
  pub buffer : MessageBuffer
  pub journal : List Row
  pub output_truncated_commands : List String
  pub unconfirmed_output_commands : List String
  pub reconnect_delay : ℕ

abbrev pub is_text : String → String → Bool
is_text a b = b == a

abbrev pub has : String → List String → Bool
has i ids = any (is_text i) ids

-- `Set.add` and `Set.delete`
unfoldable pub add : String → List String → List String
add i ids = if has i ids then ids else ids ++ i ∷ []

unfoldable pub delete : String → List String → List String
delete i ids = remove (is_text i) ids

-- `markCommandOutputTruncated`, but for the buffer
abbrev pub note_truncated : String → Link → Link
note_truncated command_id l = record l {
  journal = mark_output_truncated command_id l.journal;
  unconfirmed_output_commands = delete command_id l.unconfirmed_output_commands;
  output_truncated_commands = add command_id l.output_truncated_commands;
}

unfoldable pub mark_command_output_truncated : String → Link → Link
mark_command_output_truncated command_id l = record (note_truncated command_id l) {
  buffer = mark_truncated command_id l.buffer;
}

-- What the buffer's callback does.
abbrev pub before_output_discard : String → MessageBuffer × Link → MessageBuffer × Link
before_output_discard command_id (b, l) = (mark_truncated command_id b, note_truncated command_id l)

unfoldable pub mark_command_output_unconfirmed : String → Link → Link
mark_command_output_unconfirmed command_id l =
    if has command_id l.unconfirmed_output_commands then l else record l {
      journal = mark_output_unconfirmed command_id l.journal;
      unconfirmed_output_commands = add command_id l.unconfirmed_output_commands;
    }

abbrev pub mark_all : List String → Link → Link
mark_all [] l = l
mark_all (command_id ∷ ids) l = mark_all ids (mark_command_output_truncated command_id l)

unfoldable pub mark_unconfirmed_output_truncated : Link → Link
mark_unconfirmed_output_truncated l = mark_all l.unconfirmed_output_commands l

abbrev pub buffered : ClientMessage → Link → Link × Bool
buffered message l =
    let ((b, later), result) = enqueue before_output_discard message (l.buffer, l) in
    (record later { buffer = b }, is_accepted result)

abbrev pub unconfirmed_if : Option (String × List ℕ) → Link → Link
unconfirmed_if none l = l
unconfirmed_if (some (command_id, bytes)) l = mark_command_output_unconfirmed command_id l

abbrev pub send_or_buffer : ClientMessage → Link → Link × Bool
send_or_buffer message l =
    if not (l.authenticated && l.socket_open)
    then buffered message l
    else if l.send_throws
    then buffered message (record l { authenticated = false })
    else (record l { sent = l.sent ++ message ∷ [] }, true)

unfoldable pub deliver : ClientMessage → Link → Link × Bool
deliver message l = send_or_buffer message (unconfirmed_if (output_message message) l)

-- `flushBufferedMessages` runs until the buffer is empty or sending fails: one round for each message.
abbrev pub flush_from : List Buffered → Link → Link
flush_from [] l = l
flush_from (entry ∷ entries) l =
    if not (l.authenticated && l.socket_open)
    then l
    else if l.send_throws
    then record l { authenticated = false }
    else flush_from entries
        (record l { sent = l.sent ++ entry.message ∷ []; buffer = (shift l.buffer).0 })

unfoldable pub flush_buffered_messages : Link → Link
flush_buffered_messages l = flush_from l.buffer.messages l

-- An empty text is left out of the message.
abbrev or_incomplete : Option String → Bool → Option String
or_incomplete (some e) truncated = if e == "" then none else some e
or_incomplete none truncated = if truncated then some "Command output is incomplete" else none

unfoldable pub send_completion : String → CommandResult → (now : ℕ) → Link → Link
send_completion command_id result now l =
    let truncated = result.output_truncated || has command_id l.output_truncated_commands in
    (deliver
      (command_completed (record {
        command_id = command_id;
        status = result.status;
        exit_code = result.exit_code;
        error = or_incomplete result.error truncated;
        output_truncated = truncated;
        at = now;
      }))
      l).0
