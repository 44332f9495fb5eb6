-- ===== src/Client/Link/Records.antt =====
-- apps/client/src/index.ts: what sending and buffering leave in the journal.
use odyshell.Base.{
  ℕ, ◌+◌, refl, inl, inr, Bool, true, false, not, ◌&&◌, Option, none, some, List, [], ◌∷◌, ◌++◌,
  String, if◌then◌else◌, ltb, leb, length, Bool-cases,
}
use odyshell.Protocol.Messages.{ClientMessage}
use odyshell.Client.Journal.{CommandResult, has_id, mark_output_truncated, mark_output_unconfirmed}
use odyshell.Client.Journal.Knowledge.{IsKnown, update-IsKnown}
use odyshell.Client.Buffer.{
  Buffered, MessageBuffer, output_message, shift, output_at, discarded_index, enqueue, enqueue_as,
  before_discard,
}
use odyshell.Base.Arrays
use odyshell.Client.Link.{
  Link, has, deliver, buffered, send_or_buffer, unconfirmed_if, before_output_discard,
  note_truncated, mark_command_output_truncated, mark_command_output_unconfirmed, mark_all,
  mark_unconfirmed_output_truncated, flush_from, flush_buffered_messages, send_completion,
}

-- The callback alone changes the rest of the Client.
module _ {ℓ κ} {W : Type ℓ} (hook : String → MessageBuffer × W → MessageBuffer × W) (P : W → Type κ)
    (kept : (c : String) (b : MessageBuffer) (w : W) → P w → P (hook c (b, w)).1) where
  pub enqueue_rest :
      (m : ClientMessage) (b : MessageBuffer) (w : W) → P w → P (enqueue hook m (b, w)).0.1
  unfolding enqueue
  enqueue_rest m b w h = go (output_message m)
    where
      announced : (o : Option String) → P (before_discard hook o (b, w)).1
      announced none = h
      announced (some c) = kept c b w h

      go : (o : Option (String × List ℕ)) → P (enqueue_as hook o m (b, w)).0.1
      go none = elim (Bool-cases (leb b.maximum_messages (length b.messages))) [
        | inl full ↦
            rw full
              (announced (output_at (Arrays.get_elem? b.messages (discarded_index b.messages))))
        | inr room ↦ rw room h
      ]
      go (some (c, bytes)) =
          elim (Bool-cases (ltb b.maximum_output_bytes (b.output_bytes + length bytes))) [
            | inl large ↦ rw large (kept c b w h)
            | inr fits ↦ elim (Bool-cases (leb b.maximum_messages (length b.messages))) [
              | inl full ↦ rw (fits, full) (kept c b w h)
              | inr room ↦ rw (fits, room) h
            ]
          ]

-- The journal has a row of the Command.
abbrev pub Records : String → Link → Type 0
Records i l = IsKnown i l.journal

module _ (i : String) where
  noted-Records : (c : String) (l : Link) → Records i l → Records i (note_truncated c l)
  unfolding mark_output_truncated
  noted-Records c l h = update-IsKnown i (has_id c) _ l.journal (λ r. refl) h

  pub truncated-Records :
      (c : String) (l : Link) → Records i l → Records i (mark_command_output_truncated c l)
  unfolding mark_command_output_truncated
  truncated-Records c l h = noted-Records c l h

  unconfirmed-Records :
      (c : String) (l : Link) → Records i l → Records i (mark_command_output_unconfirmed c l)
  unfolding mark_command_output_unconfirmed mark_output_unconfirmed
  unconfirmed-Records c l h = elim (Bool-cases (has c l.unconfirmed_output_commands)) [
    | inl known ↦ rw (known, mark_command_output_unconfirmed) h
    | inr fresh ↦
        rw (fresh, mark_command_output_unconfirmed)
          (update-IsKnown i (λ r. has_id c r && not r.output_truncated)
            (λ r. record r { output_unconfirmed = true }) l.journal (λ r. refl) h)
  ]

  buffered-Records : (m : ClientMessage) (l : Link) → Records i l → Records i (buffered m l).0
  buffered-Records m l h =
      enqueue_rest before_output_discard (Records i) (λ c b w k. noted-Records c w k) m l.buffer l h

  send-Records : (m : ClientMessage) (l : Link) → Records i l → Records i (send_or_buffer m l).0
  send-Records m l h = elim (Bool-cases (l.authenticated && l.socket_open)) [
    | inr closed ↦ rw closed (buffered-Records m l h)
    | inl ready ↦ elim (Bool-cases l.send_throws) [
      | inl throws ↦ rw (ready) (go l.send_throws)
      | inr sends ↦ rw (ready) (go l.send_throws)
    ]
  ]
    where
      go :
          (b : Bool)
          → Records i
              (if b
                then buffered m (record l { authenticated = false })
                else (record l { sent = l.sent ++ m ∷ [] }, true)).0
      go true = buffered-Records m (record l { authenticated = false }) h
      go false = h

  pub deliver-Records : (m : ClientMessage) (l : Link) → Records i l → Records i (deliver m l).0
  unfolding deliver
  deliver-Records m l h =
      send-Records m (unconfirmed_if (output_message m) l) (go (output_message m))
    where
      go : (o : Option (String × List ℕ)) → Records i (unconfirmed_if o l)
      go none = h
      go (some (c, bytes)) = unconfirmed-Records c l h

  pub send_completion-Records :
      (c : String) (r : CommandResult) (now : ℕ) (l : Link)
      → Records i l
      → Records i (send_completion c r now l)
  unfolding send_completion
  send_completion-Records c r now l h = deliver-Records _ l h

  mark_all-Records : (ids : List String) (l : Link) → Records i l → Records i (mark_all ids l)
  mark_all-Records [] l h = h
  mark_all-Records (c ∷ ids) l h =
      mark_all-Records ids (mark_command_output_truncated c l) (truncated-Records c l h)

  pub unconfirmed_truncated-Records :
      (l : Link) → Records i l → Records i (mark_unconfirmed_output_truncated l)
  unfolding mark_unconfirmed_output_truncated
  unconfirmed_truncated-Records l h = mark_all-Records l.unconfirmed_output_commands l h

  flush_from-Records :
      (entries : List Buffered) (l : Link) → Records i l → Records i (flush_from entries l)
  flush_from-Records [] l h = h
  flush_from-Records (entry ∷ entries) l h = go (l.authenticated && l.socket_open) l.send_throws (
      flush_from-Records entries
        (record l { sent = l.sent ++ entry.message ∷ []; buffer = (shift l.buffer).0 }) h)
    where
      go :
          (ready throws : Bool)
          → Records i (
              flush_from entries
                (record l { sent = l.sent ++ entry.message ∷ []; buffer = (shift l.buffer).0 }))
          → Records i (
              if not ready
              then l
              else if throws
              then record l { authenticated = false }
              else flush_from entries
                  (record l { sent = l.sent ++ entry.message ∷ []; buffer = (shift l.buffer).0 }))
      go false throws rest = h
      go true true rest = h
      go true false rest = rest

  pub flush_buffered_messages-Records :
      (l : Link) → Records i l → Records i (flush_buffered_messages l)
  unfolding flush_buffered_messages
  flush_buffered_messages-Records l h = flush_from-Records l.buffer.messages l h
