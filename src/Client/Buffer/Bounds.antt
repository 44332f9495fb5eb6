-- ===== src/Client/Buffer/Bounds.antt =====
-- apps/client/src/index.ts: how much `ClientMessageBuffer` holds.
use odyshell.Base.{
  ℕ, zero, suc, ◌+◌, ◌≤◌, ◌<◌, ◌≡◌, refl, ap, inl, inr, Option, none, some, List, [], ◌∷◌, ◌++◌,
  ◌∙◌, sym, All, String, if◌then◌else◌, ltb, leb, length, length-append, arith, Bool-cases,
  Option-cases,
}
use odyshell.Base.Arrays
use odyshell.Protocol.Messages.{
  ClientMessage, session_opened, session_open_failed, session_closed, command_started,
  command_output, command_completed,
}
use odyshell.Client.Buffer.{
  Buffered, MessageBuffer, output_message, truncated_message, mark_entries, mark_truncated,
  find_output, discarded_index, remove_at, output_at, bytes_at, is_output, push, splice, mark_if,
  enqueue, enqueue_full, enqueue_as, shift_from, before_discard, shift,
}

abbrev pub bytes_in : Option (String × List ℕ) → ℕ
bytes_in none = 0
bytes_in (some (command_id, bytes)) = length bytes

-- The bytes of output that a message carries.
abbrev pub message_bytes : ClientMessage → ℕ
message_bytes m = bytes_in (output_message m)

-- The bytes of output that the messages carry.
unfoldable pub total : List Buffered → ℕ
total [] = 0
total (entry ∷ entries) = message_bytes entry.message + total entries

abbrev pub IsSized : Buffered → Type 0
IsSized entry = entry.output_bytes ≡ message_bytes entry.message

-- Neither more messages nor more bytes of output in them than the maxima, and the buffer's count of
-- bytes, and that of each entry, is the number of bytes that the messages carry.
pub record IsBounded (b : MessageBuffer) : Type 0 where
  pub few : length b.messages ≤ b.maximum_messages
  pub sized : All IsSized b.messages
  pub counted : b.output_bytes ≡ total b.messages
  pub small : b.output_bytes ≤ b.maximum_output_bytes

-- What marking a completion does: no message more or less, no byte more or less.
pub record IsAlike (b c : MessageBuffer) : Type 0 where
  pub same_length : length c.messages ≡ length b.messages
  pub same_sized : All IsSized b.messages → All IsSized c.messages
  pub same_total : total c.messages ≡ total b.messages
  pub same_bytes : c.output_bytes ≡ b.output_bytes
  pub same_messages : c.maximum_messages ≡ b.maximum_messages
  pub same_maximum : c.maximum_output_bytes ≡ b.maximum_output_bytes

length-mark_entries :
    (c : String) (entries : List Buffered) → length (mark_entries c entries) ≡ length entries
unfolding mark_entries
length-mark_entries c [] = refl
length-mark_entries c (entry ∷ entries) = ap suc (length-mark_entries c entries)

truncated-bytes :
    (c : String) (m : ClientMessage) → message_bytes (truncated_message c m) ≡ message_bytes m
truncated-bytes c (command_completed r) = refl
truncated-bytes c (command_output k n s bytes) = refl
truncated-bytes c (session_opened s p u) = refl
truncated-bytes c (session_open_failed s e) = refl
truncated-bytes c (session_closed s r) = refl
truncated-bytes c (command_started k at) = refl

mark_entries-IsSized :
    (c : String) (entries : List Buffered)
    → All IsSized entries
    → All IsSized (mark_entries c entries)
unfolding mark_entries
mark_entries-IsSized c [] h = tt
mark_entries-IsSized c (entry ∷ entries) (one, h) =
    (one ∙ sym (truncated-bytes c entry.message), mark_entries-IsSized c entries h)

total-mark_entries :
    (c : String) (entries : List Buffered) → total (mark_entries c entries) ≡ total entries
unfolding mark_entries total
total-mark_entries c [] = refl
total-mark_entries c (entry ∷ entries) =
    omega (arith, truncated-bytes c entry.message, total-mark_entries c entries)

pub mark_truncated-IsAlike : (c : String) (b : MessageBuffer) → IsAlike b (mark_truncated c b)
unfolding mark_truncated
mark_truncated-IsAlike c b = record {
  same_length = length-mark_entries c b.messages;
  same_sized = mark_entries-IsSized c b.messages;
  same_total = total-mark_entries c b.messages;
  same_bytes = refl;
  same_messages = refl;
  same_maximum = refl;
}

pub alike-IsBounded : (b c : MessageBuffer) → IsAlike b c → IsBounded b → IsBounded c
alike-IsBounded b c same h = record {
  few = rw (same.same_length, same.same_messages) h.few;
  sized = same.same_sized h.sized;
  counted = rw (same.same_bytes, same.same_total) h.counted;
  small = rw (same.same_bytes, same.same_maximum) h.small;
}

append-IsSized : (xs ys : List Buffered) → All IsSized xs → All IsSized ys → All IsSized (xs ++ ys)
append-IsSized [] ys hx hy = hy
append-IsSized (x ∷ xs) ys (h, hx) hy = (h, append-IsSized xs ys hx hy)

total-append : (xs ys : List Buffered) → total (xs ++ ys) ≡ total xs + total ys
unfolding total
total-append [] ys = omega arith
total-append (x ∷ xs) ys = omega (arith, total-append xs ys)

find_output-inside :
    (entries : List Buffered) (i : ℕ) → find_output entries ≡ some i → i < length entries
unfolding find_output
find_output-inside [] i e = cc
find_output-inside (entry ∷ entries) i e = go (find_output entries) (find_output-inside entries) e
  where
    go :
        (o : Option ℕ)
        → ((j : ℕ) → o ≡ some j → j < length entries)
        → (if is_output entry then some 0 else elim o [ none ↦ none | some j ↦ some (suc j) ])
          ≡ some i
        → i < suc (length entries)
    go none found e = ground arith
    go (some j) found e = let below = found j refl in ground arith

discarded_index-inside :
    (entries : List Buffered) → 0 < length entries → discarded_index entries < length entries
discarded_index-inside entries h = elim (Option-cases (find_output entries)) [
  | inl e ↦ rw e h
  | inr (i, e) ↦ rw e (find_output-inside entries i e)
]

remove_at-total :
    (i : ℕ) (entries : List Buffered)
    → i < length entries
    → All IsSized entries
    → (suc (length (remove_at i entries)) ≡ length entries)
      × (total (remove_at i entries) + bytes_at (Arrays.get_elem? entries i) ≡ total entries)
      × All IsSized (remove_at i entries)
unfolding remove_at total
remove_at-total i [] h sized = absurd (omega arith)
remove_at-total zero (entry ∷ entries) h (here, sized) = (refl, omega arith, sized)
remove_at-total (suc i) (entry ∷ entries) h (here, sized) =
    let (one, rest, left) = remove_at-total i entries (omega arith) sized in
    (ap suc one, omega arith, (here, left))

push-IsBounded :
    (m : ClientMessage) (n : ℕ) (b : MessageBuffer)
    → IsBounded b
    → length b.messages < b.maximum_messages
    → b.output_bytes + n ≤ b.maximum_output_bytes
    → n ≡ message_bytes m
    → IsBounded (push m n b)
unfolding total
push-IsBounded m n b h room fits size =
    let entry : Buffered = record { message = m; output_bytes = n } in
    let more = length-append b.messages (entry ∷ []) in
    let sum = total-append b.messages (entry ∷ []) in
    let before = h.counted in
    record {
      few = omega arith;
      sized = append-IsSized b.messages (entry ∷ []) h.sized (size, tt);
      counted = omega arith;
      small = fits;
    }

-- One message less, and its bytes.
splice-IsBounded :
    (i : ℕ) (b : MessageBuffer)
    → IsBounded b
    → i < length b.messages
    → IsBounded (splice i b) × (length (splice i b).messages < length b.messages)
splice-IsBounded i b h inside =
    let (one, rest, left) = remove_at-total i b.messages inside h.sized in
    let before = h.counted in
    let few = h.few in
    let small = h.small in
    (
      record { few = omega arith; sized = left; counted = omega arith; small = omega arith },
      omega arith,
    )

mark_if-IsBounded : (o : Option String) (b : MessageBuffer) → IsBounded b → IsBounded (mark_if o b)
mark_if-IsBounded none b h = h
mark_if-IsBounded (some c) b h =
    alike-IsBounded b (mark_truncated c b) (mark_truncated-IsAlike c b) h

module _ {ℓ} {W : Type ℓ} (hook : String → MessageBuffer × W → MessageBuffer × W) where
  -- The callback changes the buffer no more than marking completions does.
  abbrev pub IsMarking : Type ℓ
  IsMarking = (c : String) (b : MessageBuffer) (w : W) → IsAlike b (hook c (b, w)).0

  IsAlike-refl : (b : MessageBuffer) → IsAlike b b
  IsAlike-refl b = record {
    same_length = refl;
    same_sized = λ h. h;
    same_total = refl;
    same_bytes = refl;
    same_messages = refl;
    same_maximum = refl;
  }

  before_discard-IsAlike :
      (o : Option String) (b : MessageBuffer) (w : W)
      → IsMarking
      → IsAlike b (before_discard hook o (b, w)).0
  before_discard-IsAlike none b w marking = IsAlike-refl b
  before_discard-IsAlike (some c) b w marking = marking c b w

  enqueue_full-IsBounded :
      (m : ClientMessage) (b : MessageBuffer) (w : W)
      → output_message m ≡ none
      → IsMarking
      → 0 < length b.messages
      → IsBounded b
      → IsBounded (enqueue_full hook m (b, w)).0.0
  enqueue_full-IsBounded m b w plain marking some_message h =
      let i = discarded_index b.messages in
      let o = output_at (Arrays.get_elem? b.messages i) in
      let same = before_discard-IsAlike o b w marking in
      let announced = (before_discard hook o (b, w)).0 in
      let kept = alike-IsBounded b announced same h in
      let inside = discarded_index-inside b.messages some_message in
      let same_length = same.same_length in
      let (spliced, shorter) = splice-IsBounded i announced kept (omega arith) in
      let few = kept.few in
      let small = spliced.small in
      mark_if-IsBounded (output_at (Arrays.get_elem? announced.messages i))
        (push m 0 (splice i announced))
        (push-IsBounded m 0 (splice i announced) spliced (omega arith) (omega arith)
          (rw plain refl))

  -- Whatever is enqueued, neither the messages nor the bytes of output that they carry exceed their
  -- maxima, and the bytes counted, in all and for each entry, are those that the messages carry. The
  -- buffer has room for one message at least and keeps to this, and its callback only marks completions.
  pub enqueue-IsBounded :
      (m : ClientMessage) (b : MessageBuffer) (w : W)
      → IsMarking
      → 1 ≤ b.maximum_messages
      → IsBounded b
      → IsBounded (enqueue hook m (b, w)).0.0
  unfolding enqueue
  enqueue-IsBounded m b w marking some_room h = go (output_message m) refl
    where
      go :
          (o : Option (String × List ℕ))
          → output_message m ≡ o
          → IsBounded (enqueue_as hook o m (b, w)).0.0
      go none e = elim (Bool-cases (leb b.maximum_messages (length b.messages))) [
        | inl full ↦ rw full (enqueue_full-IsBounded m b w e marking (ground arith) h)
        | inr room ↦
            let small = h.small in
            rw room (push-IsBounded m 0 b h (ground arith) (omega arith) (rw e refl))
      ]
      go (some (c, bytes)) e =
          let kept = alike-IsBounded b (hook c (b, w)).0 (marking c b w) h in
          elim (Bool-cases (ltb b.maximum_output_bytes (b.output_bytes + length bytes))) [
            | inl large ↦ rw large kept
            | inr fits ↦ elim (Bool-cases (leb b.maximum_messages (length b.messages))) [
              | inl full ↦ rw (fits, full) kept
              | inr room ↦
                  rw (fits, room)
                    (push-IsBounded m (length bytes) b h (ground arith) (ground arith) (rw e refl))
            ]
          ]

pub shift-IsBounded : (b : MessageBuffer) → IsBounded b → IsBounded (shift b).0
unfolding shift total
shift-IsBounded b h = go b.messages refl
  where
    go : (entries : List Buffered) → b.messages ≡ entries → IsBounded (shift_from entries b).0
    go [] e = h
    go (x ∷ xs) e =
        let few = rw e at h.few in
        let counted = rw e at h.counted in
        let small = h.small in
        let (here, sized) = rw e at h.sized in
        record { few = omega arith; sized = sized; counted = omega arith; small = omega arith }
