-- ===== src/Client/Buffer.antt =====
-- apps/client/src/index.ts: the class `ClientMessageBuffer`, which keeps what the Client could not send.
-- What its callback does to the rest of the Client is a function on the buffer and that rest.
pub mod Bounds
use odyshell.Base.{
  ℕ, zero, suc, ◌+◌, ◌-◌, Bool, true, false, not, ◌&&◌, Option, none, some, List, [], ◌∷◌, ◌++◌,
  String, ◌==◌, if◌then◌else◌, ltb, leb, length, map, is_some,
}
use odyshell.Base.Arrays
use odyshell.Protocol.Messages.{
  ClientMessage, session_opened, session_open_failed, session_closed, command_started,
  command_output, command_completed, CommandCompleted,
}

pub record Buffered : Type 0 where
  pub message : ClientMessage
  pub output_bytes : ℕ

pub record MessageBuffer : Type 0 where
  pub maximum_messages : ℕ
  pub maximum_output_bytes : ℕ
  pub messages : List Buffered
  pub output_bytes : ℕ

-- The Command that a message carries output of, and that output.
abbrev pub output_message : ClientMessage → Option (String × List ℕ)
output_message (command_output command_id sequence stream bytes) = some (command_id, bytes)
output_message (session_opened _ _ _) = none
output_message (session_open_failed _ _) = none
output_message (session_closed _ _) = none
output_message (command_started _ _) = none
output_message (command_completed _) = none

abbrev pub is_output : Buffered → Bool
is_output entry = is_some (output_message entry.message)

abbrev or_incomplete : Option String → Option String
or_incomplete none = some "Command output is incomplete"
or_incomplete (some e) = some e

abbrev truncated_completion : String → CommandCompleted → CommandCompleted
truncated_completion command_id c =
    if (c.command_id == command_id) && not c.output_truncated
    then record c { error = or_incomplete c.error; output_truncated = true }
    else c

abbrev pub truncated_message : String → ClientMessage → ClientMessage
truncated_message command_id (command_completed c) =
    command_completed (truncated_completion command_id c)
truncated_message command_id (command_output c n stream bytes) = command_output c n stream bytes
truncated_message command_id (session_opened s p u) = session_opened s p u
truncated_message command_id (session_open_failed s e) = session_open_failed s e
truncated_message command_id (session_closed s r) = session_closed s r
truncated_message command_id (command_started c at) = command_started c at

unfoldable pub mark_entries : String → List Buffered → List Buffered
mark_entries command_id [] = []
mark_entries command_id (entry ∷ entries) =
    record entry { message = truncated_message command_id entry.message }
    ∷ mark_entries command_id entries

-- `markOutputTruncated`
unfoldable pub mark_truncated : String → MessageBuffer → MessageBuffer
mark_truncated command_id b = record b { messages = mark_entries command_id b.messages }

-- `findIndex`
unfoldable pub find_output : List Buffered → Option ℕ
find_output [] = none
find_output (entry ∷ entries) =
    let rest = find_output entries in
    if is_output entry then some 0 else elim rest [ none ↦ none | some i ↦ some (suc i) ]

abbrev or_first : Option ℕ → ℕ
or_first none = 0
or_first (some i) = i

-- The first output, and the first message if none is output.
abbrev pub discarded_index : List Buffered → ℕ
discarded_index entries = or_first (find_output entries)

-- `splice` of one entry
unfoldable pub remove_at : ℕ → List Buffered → List Buffered
remove_at i [] = []
remove_at zero (entry ∷ entries) = entries
remove_at (suc i) (entry ∷ entries) = entry ∷ remove_at i entries

abbrev pub output_at : Option Buffered → Option String
output_at none = none
output_at (some entry) = elim (output_message entry.message) [
  | none ↦ none
  | some (command_id, bytes) ↦ some command_id
]

abbrev pub bytes_at : Option Buffered → ℕ
bytes_at none = 0
bytes_at (some entry) = entry.output_bytes

pub data EnqueueResult : Type 0 where
  refused : EnqueueResult
  accepted : (truncated_command_id : Option String) → EnqueueResult

abbrev pub is_accepted : EnqueueResult → Bool
is_accepted refused = false
is_accepted (accepted truncated) = true

abbrev pub push : ClientMessage → ℕ → MessageBuffer → MessageBuffer
push message bytes b = record b {
  messages = b.messages ++ record { message = message; output_bytes = bytes } ∷ [];
  output_bytes = b.output_bytes + bytes;
}

abbrev pub splice : ℕ → MessageBuffer → MessageBuffer
splice i b = record b {
  messages = remove_at i b.messages;
  output_bytes = b.output_bytes - bytes_at (Arrays.get_elem? b.messages i);
}

abbrev pub mark_if : Option String → MessageBuffer → MessageBuffer
mark_if none b = b
mark_if (some command_id) b = mark_truncated command_id b

module _ {ℓ} {W : Type ℓ}
    (before_output_discard : String → MessageBuffer × W → MessageBuffer × W) where
  abbrev pub before_discard : Option String → MessageBuffer × W → MessageBuffer × W
  before_discard none s = s
  before_discard (some command_id) s = before_output_discard command_id s

  -- A message that is not output, into a full buffer: an entry is discarded for it.
  abbrev pub enqueue_full : ClientMessage → MessageBuffer × W → (MessageBuffer × W) × EnqueueResult
  enqueue_full message (b, w) =
      let i = discarded_index b.messages in
      let (announced, later) = before_discard (output_at (Arrays.get_elem? b.messages i)) (b, w) in
      let truncated = output_at (Arrays.get_elem? announced.messages i) in
      ((mark_if truncated (push message 0 (splice i announced)), later), accepted truncated)

  abbrev pub enqueue_as :
      Option (String × List ℕ)
      → ClientMessage
      → MessageBuffer × W
      → (MessageBuffer × W) × EnqueueResult
  enqueue_as (some (command_id, bytes)) message (b, w) =
      if ltb b.maximum_output_bytes (b.output_bytes + length bytes)
      then (before_output_discard command_id (b, w), refused)
      else if leb b.maximum_messages (length b.messages)
      then (before_output_discard command_id (b, w), refused)
      else ((push message (length bytes) b, w), accepted none)
  enqueue_as none message (b, w) =
      if leb b.maximum_messages (length b.messages)
      then enqueue_full message (b, w)
      else ((push message 0 b, w), accepted none)

  unfoldable pub enqueue : ClientMessage → MessageBuffer × W → (MessageBuffer × W) × EnqueueResult
  enqueue message s = enqueue_as (output_message message) message s

unfoldable pub peek : MessageBuffer → Option ClientMessage
peek b = elim b.messages [ [] ↦ none | entry ∷ entries ↦ some entry.message ]

abbrev pub shift_from : List Buffered → MessageBuffer → MessageBuffer × Option ClientMessage
shift_from [] b = (b, none)
shift_from (entry ∷ entries) b = (
  record b { messages = entries; output_bytes = b.output_bytes - entry.output_bytes },
  some entry.message,
)

unfoldable pub shift : MessageBuffer → MessageBuffer × Option ClientMessage
shift b = shift_from b.messages b

unfoldable pub drain : MessageBuffer → MessageBuffer × List ClientMessage
drain b = (record b { messages = []; output_bytes = 0 }, map (λ entry. entry.message) b.messages)
