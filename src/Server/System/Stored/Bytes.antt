-- ===== src/Server/System/Stored/Bytes.antt =====
-- The bytes of output that are stored for a Command, and those that its row counts.
use odyshell.Base.{
  ℕ, ◌+◌, ◌≤◌, Bool, false, some, List, [], ◌∷◌, String, ◌≡◌, refl, inl, inr, arith, if◌then◌else◌,
  find, update, remove, any, length, has_key, Bool-cases,
}
use odyshell.Protocol.Session.{Command, default_command_output_bytes}
use odyshell.Protocol.Messages.{OutputStream, stdout, stderr}
use odyshell.Server.Store.{Store, SessionRow, CommandRow, OutputChunk, change_command, command_key}
use odyshell.Server.Store.Commands.{active_in, cancel_row}
use odyshell.Server.Store.Endings.{cancel_commands}
use odyshell.Server.Store.Endings.Effects.{IsStopped}
use odyshell.Server.Store.Reports.{OutputReport, add_bytes, chunk_of, chunk_key}
use odyshell.Server.Store.Reports.Effects.{output_row}
use odyshell.Server.System.Output.{command_id_of, HasBoundedOutput}

-- The bytes that are stored for a Command, on both streams together.
unfoldable pub stored : String → String → List OutputChunk → ℕ
stored o i [] = 0
stored o i (k ∷ chunks) =
    let rest = stored o i chunks in if chunk_key o i k then length k.bytes + rest else rest

-- The bytes that its row counts.
unfoldable pub taken : String → String → List CommandRow → ℕ
taken o i [] = 0
taken o i (r ∷ rows) =
    let rest = taken o i rows in
    if command_key o i r then r.stdout_bytes + r.stderr_bytes + rest else rest

-- Every byte that is stored is counted.
abbrev pub Covers : List OutputChunk → List CommandRow → Type 0
Covers chunks rows = (o i : String) → stored o i chunks ≤ taken o i rows

abbrev pub IsCovered : Store → Type 0
IsCovered st = Covers st.chunks st.commands

-- The Command is the same, and counts as much or more.
abbrev pub IsCounting : (Command → Command) → Type 0
IsCounting f =
    (c : Command)
    → ((f c).organization_id ≡ c.organization_id)
      × ((f c).id ≡ c.id)
      × (c.stdout_bytes ≤ (f c).stdout_bytes)
      × (c.stderr_bytes ≤ (f c).stderr_bytes)

taken-update :
    (o i : String) (p : CommandRow → Bool) (f : Command → Command) (rows : List CommandRow)
    → IsCounting f
    → taken o i rows ≤ taken o i (update p (change_command f) rows)
unfolding taken update
taken-update o i p f [] counting = omega arith
taken-update o i p f (r ∷ rows) counting =
    let rest = taken-update o i p f rows counting in
    let (same_organization, same_id, out, err) = counting r.command_record in ground arith

pub update_keeps :
    (p : CommandRow → Bool) (f : Command → Command) (chunks : List OutputChunk)
    (rows : List CommandRow)
    → IsCounting f
    → Covers chunks rows
    → Covers chunks (update p (change_command f) rows)
update_keeps p f chunks rows counting h o i =
    let before = h o i in let more = taken-update o i p f rows counting in omega arith

pub cancel_keeps :
    (p : CommandRow → Bool) (chunks : List OutputChunk) (rows : List CommandRow)
    → Covers chunks rows
    → Covers chunks (update p (change_command cancel_row) rows)
cancel_keeps p chunks rows h =
    update_keeps p cancel_row chunks rows (λ c. (refl, refl, omega arith, omega arith)) h

pub stopped_keeps :
    (o s : String) (st : Store) (rows : List CommandRow)
    → IsStopped o s st rows
    → IsCovered st
    → Covers st.chunks rows
stopped_keeps o s st rows (inl e) h = rw e h
stopped_keeps o s st rows (inr e) h = rw e (cancel_keeps _ st.chunks st.commands h)

pub cancel_commands_keeps :
    (ended : List SessionRow) (chunks : List OutputChunk) (rows : List CommandRow)
    → Covers chunks rows
    → Covers chunks (cancel_commands ended rows).0
unfolding cancel_commands
cancel_commands_keeps [] chunks rows h = h
cancel_commands_keeps (s ∷ ss) chunks rows h =
    cancel_commands_keeps ss chunks _
      (cancel_keeps (active_in s.organization_id s.id) chunks rows h)

-- The report of a Command that is there is counted in full.
module _ (input : OutputReport) where
  unfoldable pub grow : Command → Command
  grow = add_bytes input.stream (length input.bytes)

  pub grow-IsCounting : IsCounting grow
  unfolding grow
  grow-IsCounting c = go input.stream
    where
      go :
          (s : OutputStream)
          → ((add_bytes s (length input.bytes) c).organization_id ≡ c.organization_id)
            × ((add_bytes s (length input.bytes) c).id ≡ c.id)
            × (c.stdout_bytes ≤ (add_bytes s (length input.bytes) c).stdout_bytes)
            × (c.stderr_bytes ≤ (add_bytes s (length input.bytes) c).stderr_bytes)
      go stdout = (refl, refl, omega arith, omega arith)
      go stderr = (refl, refl, omega arith, omega arith)

  grow-adds :
      (c : Command)
      → (grow c).stdout_bytes + (grow c).stderr_bytes
        ≡ c.stdout_bytes + c.stderr_bytes + length input.bytes
  unfolding grow
  grow-adds c = go input.stream
    where
      go :
          (s : OutputStream)
          → (add_bytes s (length input.bytes) c).stdout_bytes
              + (add_bytes s (length input.bytes) c).stderr_bytes
            ≡ c.stdout_bytes + c.stderr_bytes + length input.bytes
      go stdout = omega arith
      go stderr = omega arith

  taken-grow :
      (o i : String) (rows : List CommandRow) (c : CommandRow)
      → input.organization_id ≡ o
      → input.command_id ≡ i
      → find (output_row input) rows ≡ some c
      → taken o i rows + length input.bytes
        ≤ taken o i
            (update (command_key input.organization_id input.command_id) (change_command grow) rows)
  unfolding taken update find
  taken-grow o i [] c same_o same_i e = cc
  taken-grow o i (r ∷ rows) c same_o same_i e =
      let adds = grow-adds r.command_record in
      let (same_organization, same_id, out, err) = grow-IsCounting r.command_record in
      elim (Bool-cases (command_key input.organization_id input.command_id r)) [
        | inl here ↦
            let more =
              taken-update o i (command_key input.organization_id input.command_id) grow rows
                grow-IsCounting in
            ground arith
        | inr other ↦
            let below : find (output_row input) rows ≡ some c = ground arith in
            let more = taken-grow o i rows c same_o same_i below in ground arith
      ]

  pub output_keeps :
      (expires_at : ℕ) (chunks : List OutputChunk) (rows : List CommandRow) (c : CommandRow)
      → find (output_row input) rows ≡ some c
      → Covers chunks rows
      → Covers
          (chunk_of input expires_at ∷ chunks)
          (update (command_key input.organization_id input.command_id) (change_command grow) rows)
  unfolding stored
  output_keeps expires_at chunks rows c at_c h o i =
      let before = h o i in
      elim (Bool-cases (chunk_key o i (chunk_of input expires_at))) [
        | inl own ↦
            let more = taken-grow o i rows c (ground arith) (ground arith) at_c in
            rw own (omega arith)
        | inr other ↦
            let more =
              taken-update o i (command_key input.organization_id input.command_id) grow rows
                grow-IsCounting in
            rw other (omega arith)
      ]

pub stored-remove :
    (o i : String) (p : OutputChunk → Bool) (chunks : List OutputChunk)
    → stored o i (remove p chunks) ≤ stored o i chunks
unfolding stored remove
stored-remove o i p [] = omega arith
stored-remove o i p (k ∷ chunks) = ground (arith, stored-remove o i p chunks)

taken-none :
    (o i : String) (rows : List CommandRow)
    → any (has_key command_id_of i) rows ≡ false
    → taken o i rows ≡ 0
unfolding taken any
taken-none o i [] h = refl
taken-none o i (r ∷ rows) h = ground (arith, taken-none o i rows)

pub taken-bounded :
    (o i : String) (rows : List CommandRow)
    → HasBoundedOutput rows
    → taken o i rows ≤ default_command_output_bytes
unfolding taken
taken-bounded o i [] h = omega arith
taken-bounded o i (r ∷ rows) ((new, unique), (fits, all)) = elim (Bool-cases (command_key o i r)) [
  | inl here ↦
      let same : r.id ≡ i = ground arith in
      let none_left = taken-none o i rows (rw same at new) in rw here (omega arith)
  | inr other ↦ rw other (taken-bounded o i rows (unique, all))
]
