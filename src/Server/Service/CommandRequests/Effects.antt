-- ===== src/Server/Service/CommandRequests/Effects.antt =====
-- What `createCommand` leaves in the database, as a rule: what holds of each database that it may
-- leave holds after it, whatever it returns or throws.
use odyshell.Base.{
  ℕ, true, false, Option, none, some, ◌∷◌, String, ◌≡◌, refl, inl, inr, any, ◌==◌, Option-cases,
  Bool-cases,
}
use odyshell.Protocol.Session.{Session, CommandRequest, Command}
use odyshell.Server.Store.{Store, CommandRow, AuditEvent, command_created, log}
use odyshell.Server.Store.Commands
use odyshell.Server.Store.Commands.{
  CommandCreation, command_insert, command_clash, command_by_idempotency, replay_command,
}
use odyshell.Server.Service.World.{audit_rule, ◌>>◌, World, pure, after_rule}
use odyshell.Server.Service.Client.{SessionClient}
use odyshell.Server.Service.Principal.{AgentPrincipal, Digest}
use odyshell.Server.Service.CommandRequests.{
  CreateCommandResult, Clearance, cleared, refused, clearance, new_command, command_fingerprint,
  announce_command, stored_command, start_cleared, create_command,
}

module _ (client : SessionClient) (digest : Digest) where
  abbrev pub creation :
      AgentPrincipal
      → String
      → CommandRequest
      → (key_hash fresh : String) → ℕ
      → Session
      → ℕ
      → CommandCreation
  creation principal session_id request key_hash fresh now s timeout = record {
    command = new_command s request timeout fresh now;
    idempotency_key_hash = key_hash;
    request_fingerprint = command_fingerprint client digest principal session_id request;
  }

abbrev pub created_event : Command → AuditEvent
created_event c = record {
  organization_id = c.organization_id;
  agent_id = c.agent_id;
  session_id = c.session_id;
  command_id = some c.id;
  event = command_created c.machine_id c.command c.cwd c.timeout_seconds;
}

-- The database with the new Command and its audit event.
abbrev pub with_command : CommandCreation → Store → Store
with_command new st =
    log (created_event new.command) (record st { commands = command_insert new ∷ st.commands })

module _ {ℓ} (P : Store → Type ℓ) (client : SessionClient) (digest : Digest) where
  announce_rule :
      (c : Command) (w : World)
      → P (log (created_event c) w.store)
      → P (announce_command client digest c w).0.store
  unfolding announce_command
  announce_rule c w h =
      let w' : World = record w { store = log (created_event c) w.store } in
      audit_rule P (created_event c)
        (λ _. client.start_command c >> pure (CreateCommandResult.created c)) w h
        (after_rule P (λ _. pure (CreateCommandResult.created c)) (client.start_command c w')
          (rw (client.start_keeps c w') h) (λ a w'' h'. h'))

  -- A Command that is not stored leaves the database alone.
  stored_rule :
      (c : Command) (fingerprint : String) (o : Option CommandRow) (w : World)
      → P w.store
      → P (stored_command client digest c (some (replay_command fingerprint o)) w).0.store
  unfolding stored_command
  stored_rule c fingerprint none w h = h
  stored_rule c fingerprint (some row) w h =
      elim (Bool-cases (row.request_fingerprint == fingerprint)) [
        | inl e ↦ rw (e, stored_command) h
        | inr e ↦ rw (e, stored_command) h
      ]

  module _ (principal : AgentPrincipal) (session_id : String) (request : CommandRequest) where
    pub start_cleared_rule :
        (key_hash fresh : String) (now : ℕ) (a : Clearance) (w : World)
        → P w.store
        → ((s : Session) (timeout : ℕ)
            → let new =
                creation client digest principal session_id request key_hash fresh now s timeout in
              a ≡ cleared s timeout
              → any (command_clash (command_insert new)) w.store.commands ≡ false
              → any (λ r. r.id == s.id) w.store.sessions ≡ true
              → P (with_command new w.store))
        → P
            (start_cleared client digest principal session_id request key_hash fresh now a
              w).0.store
    unfolding start_cleared Commands.create_command stored_command
    start_cleared_rule key_hash fresh now (refused code) w same made = same
    start_cleared_rule key_hash fresh now (cleared s timeout) w same made =
        let new =
          creation client digest principal session_id request key_hash fresh now s timeout in
        elim (Bool-cases (any (command_clash (command_insert new)) w.store.commands)) [
          | inl e ↦
              rw (e, Commands.create_command)
                (stored_rule new.command new.request_fingerprint
                  (command_by_idempotency w.store new.command.organization_id new.command.session_id
                    key_hash)
                  w same)
          | inr e ↦ elim (Bool-cases (any (λ r. r.id == s.id) w.store.sessions)) [
            | inl held ↦
                rw (e, held, Commands.create_command)
                  (announce_rule new.command _ (made s timeout refl e held))
            | inr missing ↦ rw (e, missing, Commands.create_command) same
          ]
        ]

    -- `createCommand` leaves the database as it was, or adds one cleared Command with its event.
    pub create_command_rule :
        (key fresh : String) (decided_at now : ℕ) (w : World)
        → P w.store
        → ((s : Session) (timeout : ℕ)
            → let new =
                creation client digest principal session_id request
                  (digest.hash key)
                  fresh
                  now
                  s
                  timeout in
              (clearance principal session_id request decided_at w.store ≡ cleared s timeout)
              → any (command_clash (command_insert new)) w.store.commands ≡ false
              → any (λ r. r.id == s.id) w.store.sessions ≡ true
              → P (with_command new w.store))
        → P
            (create_command client digest principal session_id request key fresh decided_at now
              w).0.store
    unfolding create_command
    create_command_rule key fresh decided_at now w same made =
        elim (Option-cases
          (command_by_idempotency w.store principal.organization_id session_id (digest.hash key))) [
            | inl e ↦
                rw (e, create_command)
                  (start_cleared_rule (digest.hash key) fresh now _ w same made)
            | inr (row, e) ↦ rw (e, create_command) same
          ]
