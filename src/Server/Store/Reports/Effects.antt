-- ===== src/Server/Store/Reports/Effects.antt =====
-- What the reports of a Machine leave in the database, as rules: an update, and at most one audit
-- event on top of it.
use odyshell.Base.{
  ℕ, Bool, false, ◌&&◌, Option, none, some, ◌∷◌, String, ◌≡◌, refl, inl, inr, Bool-cases, find,
  update, any, ltb, length, ◌+◌, ◌≤◌, arith, returning_first, eqb,
}
use odyshell.Protocol.Session.{SessionStatus, default_command_output_bytes}
use odyshell.Protocol.Messages.{CommandCompleted}
use odyshell.Server.Store.{
  Store, SessionRow, CommandRow, AuditEvent, AuditType, change, change_command, command_key,
  is_opening, is_closable, is_active_command, append,
}
use odyshell.Server.Store.Reports.{
  OpenedReport, OutputReport, opened_key, open_row, append_session, append_opened, on_machine,
  finish_row, closed_status, mark_session_opened, mark_session_failed, mark_session_closed,
  command_on_machine, add_bytes, chunk_of, chunk_key, add_output, add_command_output, complete_row,
  append_completed, mark_command_completed,
}

abbrev pub opened_row : OpenedReport → SessionRow → Bool
opened_row = opened_key

abbrev pub failed_row : String → String → String → SessionRow → Bool
failed_row organization_id machine_id session_id r =
    on_machine organization_id machine_id session_id r && is_opening r.status

abbrev pub closed_row : String → String → String → SessionRow → Bool
closed_row organization_id machine_id session_id r =
    on_machine organization_id machine_id session_id r && is_closable r.status

abbrev pub completed_row : String → String → String → CommandRow → Bool
completed_row organization_id machine_id command_id r =
    command_on_machine organization_id machine_id command_id r && is_active_command r.status

module _ {ℓ} (P : Store → Type ℓ) where
  append_session_rule :
      (o : Option SessionRow) (event : AuditType) (st : Store)
      → P st
      → ((e : AuditEvent) → P (append e st))
      → P (append_session o event st)
  unfolding append_session
  append_session_rule none event st h k = h
  append_session_rule (some r) event st h k = k _

  append_opened_rule :
      (o : Option SessionRow) (st : Store)
      → P st
      → ((e : AuditEvent) → P (append e st))
      → P (append_opened o st)
  unfolding append_opened
  append_opened_rule none st h k = h
  append_opened_rule (some r) st h k = k _

  append_completed_rule :
      (o : Option CommandRow) (st : Store)
      → P st
      → ((e : AuditEvent) → P (append e st))
      → P (append_completed o st)
  unfolding append_completed
  append_completed_rule none st h k = h
  append_completed_rule (some r) st h k = k _

  pub mark_session_opened_rule :
      (input : OpenedReport) (now : ℕ) (st : Store)
      → let later = record st {
        sessions = update (opened_row input) (change (open_row now)) st.sessions;
      } in
        P later → ((e : AuditEvent) → P (append e later)) → P (mark_session_opened input now st).0
  unfolding mark_session_opened
  mark_session_opened_rule input now st h k =
      append_opened_rule (returning_first (opened_row input) (change (open_row now)) st.sessions) _
        h k

  pub mark_session_failed_rule :
      (slice : String → String) (organization_id machine_id session_id error : String) (now : ℕ)
      (st : Store)
      → let later = record st {
        sessions =
            update
              (failed_row organization_id machine_id session_id)
              (change (finish_row SessionStatus.failed now))
              st.sessions;
      } in
        P later
        → ((e : AuditEvent) → P (append e later))
        → P (mark_session_failed slice organization_id machine_id session_id error now st).0
  unfolding mark_session_failed
  mark_session_failed_rule slice organization_id machine_id session_id error now st h k =
      append_session_rule _ _ _ h k

  pub mark_session_closed_rule :
      (organization_id machine_id session_id reason : String) (now : ℕ) (st : Store)
      → let later = record st {
        sessions =
            update
              (closed_row organization_id machine_id session_id)
              (change (finish_row (closed_status reason) now))
              st.sessions;
      } in
        P later
        → ((e : AuditEvent) → P (append e later))
        → P (mark_session_closed organization_id machine_id session_id reason now st).0
  unfolding mark_session_closed
  mark_session_closed_rule organization_id machine_id session_id reason now st h k =
      append_session_rule _ _ _ h k

  pub mark_command_completed_rule :
      (slice : String → String) (organization_id machine_id : String) (input : CommandCompleted)
      (st : Store)
      → let later = record st {
        commands =
            update
              (completed_row organization_id machine_id input.command_id)
              (change_command (complete_row slice input))
              st.commands;
      } in
        P later
        → ((e : AuditEvent) → P (append e later))
        → P (mark_command_completed slice organization_id machine_id input st).0
  unfolding mark_command_completed
  mark_command_completed_rule slice organization_id machine_id input st h k =
      append_completed_rule _ _ h k

-- The Command that an output report is for, while it may still produce output.
abbrev pub output_row : OutputReport → CommandRow → Bool
output_row input r =
    command_on_machine input.organization_id input.machine_id input.command_id r
    && is_active_command r.status

abbrev pub is_repeated : OutputReport → Store → Bool
is_repeated input st =
    any (λ k. chunk_key input.organization_id input.command_id k && eqb k.sequence input.sequence)
      st.chunks

abbrev pub with_output : OutputReport → ℕ → Store → Store
with_output input now st = record st {
  chunks = chunk_of input (now + st.retention) ∷ st.chunks;
  commands =
      update (command_key input.organization_id input.command_id)
        (change_command (add_bytes input.stream (length input.bytes))) st.commands;
}

module _ {ℓ} (P : Store → Type ℓ) (input : OutputReport) (now : ℕ) (st : Store) where
  add_output_rule :
      (o : Option CommandRow)
      → P st
      → ((c : CommandRow)
          → o ≡ some c
          → c.stdout_bytes + c.stderr_bytes + length input.bytes ≤ default_command_output_bytes
          → is_repeated input st ≡ false
          → P (with_output input now st))
      → P (add_output input now o st).0
  unfolding add_output
  add_output_rule none same added = same
  add_output_rule (some c) same added =
      elim (Bool-cases
        (ltb default_command_output_bytes (c.stdout_bytes + c.stderr_bytes + length input.bytes))) [
          | inl over ↦ rw (over, add_output) same
          | inr fits ↦ elim (Bool-cases (is_repeated input st)) [
            | inl old ↦ rw (fits, old, add_output) same
            | inr new ↦ rw (fits, new, add_output) (added c refl (ground arith) new)
          ]
        ]

  -- `addCommandOutput` changes nothing, or adds one new chunk that fits and counts its bytes.
  pub add_command_output_rule :
      P st
      → ((c : CommandRow)
          → find (output_row input) st.commands ≡ some c
          → c.stdout_bytes + c.stderr_bytes + length input.bytes ≤ default_command_output_bytes
          → is_repeated input st ≡ false
          → P (with_output input now st))
      → P (add_command_output input now st).0
  unfolding add_command_output
  add_command_output_rule same added =
      add_output_rule (find (output_row input) st.commands) same added
