-- ===== src/Server/Store/Commands/Effects.antt =====
-- What `requestCommandCancellation` leaves in the database, as a rule.
use odyshell.Base.{
  true, ◌&&◌, Option, none, some, String, ◌≡◌, refl, inl, inr, Bool-cases, find, update, ◌==◌,
}
use odyshell.Server.Store.{Store, CommandRow, change_command, command_key, is_active_command}
use odyshell.Server.Store.Commands.{cancel_row, cancel_found, request_command_cancellation}

abbrev pub with_cancellation : String → String → Store → Store
with_cancellation organization_id command_id st = record st {
  commands =
      update (command_key organization_id command_id) (change_command cancel_row) st.commands;
}

module _ {ℓ} (P : Store → Type ℓ) (organization_id command_id : String) (st : Store) where
  cancel_found_rule :
      (o : Option CommandRow)
      → P st
      → ((current : CommandRow)
          → o ≡ some current
          → is_active_command current.status ≡ true
          → P (with_cancellation organization_id command_id st))
      → P (cancel_found st organization_id command_id o).0
  unfolding cancel_found
  cancel_found_rule none same stops = same
  cancel_found_rule (some current) same stops =
      elim (Bool-cases (is_active_command current.status)) [
        | inl e ↦ rw (e, cancel_found) (stops current refl e)
        | inr e ↦ rw (e, cancel_found) same
      ]

  -- `requestCommandCancellation` changes nothing, or asks the Agent's active Command to stop.
  pub request_command_cancellation_rule :
      (agent_id : String)
      → P st
      → ((current : CommandRow)
          → (find
                (λ r. command_key organization_id command_id r && r.agent_id == agent_id)
                st.commands
              ≡ some current)
          → is_active_command current.status ≡ true
          → P (with_cancellation organization_id command_id st))
      → P (request_command_cancellation organization_id agent_id command_id st).0
  unfolding request_command_cancellation
  request_command_cancellation_rule agent_id same stops =
      cancel_found_rule
        (find (λ r. command_key organization_id command_id r && r.agent_id == agent_id) st.commands)
        same stops
