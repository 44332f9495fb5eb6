-- ===== src/Server/Service/SessionRequests/Effects.antt =====
-- What `requestSession` leaves in the database, as a rule: what holds of each database that it may
-- leave holds after it, whatever it returns or throws.
use odyshell.Base.{
  ℕ, false, Option, none, some, ◌∷◌, String, ◌≡◌, refl, inl, inr, any, ◌==◌, Option-cases,
  Bool-cases,
}
use odyshell.Protocol.Session.{SessionRequest, Session}
use odyshell.Server.Store.{
  Store, MachineAuthority, SessionRow, AuditEvent, session_requested, log, is_opening,
}
use odyshell.Server.Store.Authorities.{machine_authority}
use odyshell.Server.Store.Sessions.{
  SessionCreation, session_insert, session_clash, count_active_sessions, session_by_idempotency,
  create_session, replay_session,
}
use odyshell.Server.Service.World.{audit_rule, ◌>>◌, World, when, when_rule, after_rule, pure}
use odyshell.Server.Service.Client.{SessionClient}
use odyshell.Server.Service.Principal.{AgentPrincipal, Digest}
use odyshell.Server.Service.SessionRequests.{
  Admission, RequestSessionResult, admitted, refused, admission, new_session, session_fingerprint,
  announce_session, stored_session, open_admitted, request_session,
}

module _ (client : SessionClient) (digest : Digest) where
  abbrev pub creation :
      AgentPrincipal
      → SessionRequest
      → (key_hash fresh : String) → ℕ
      → MachineAuthority
      → SessionCreation
  creation principal request key_hash fresh now machine = record {
    session = new_session principal request machine fresh now;
    idempotency_key_hash = key_hash;
    request_fingerprint = session_fingerprint client digest principal request;
  }

  abbrev pub requested_event : AgentPrincipal → SessionRequest → Session → AuditEvent
  requested_event principal request s = record {
    organization_id = s.organization_id;
    agent_id = s.agent_id;
    session_id = s.id;
    command_id = none;
    event =
        session_requested s.machine_id s.client_profile_id s.operating_system_user
          request.duration_seconds principal.agent_role;
  }

  -- The database with the new Session and its audit event.
  abbrev pub with_session : AgentPrincipal → SessionRequest → SessionCreation → Store → Store
  with_session principal request new st =
      log (requested_event principal request new.session)
        (record st { sessions = session_insert new ∷ st.sessions })

module _ {ℓ} (P : Store → Type ℓ) (client : SessionClient) (digest : Digest)
    (principal : AgentPrincipal) (request : SessionRequest) where
  announce_rule :
      (s : Session) (w : World)
      → P (log (requested_event client digest principal request s) w.store)
      → P (announce_session client digest principal request s w).0.store
  unfolding announce_session
  announce_rule s w h =
      let w' : World = record w {
        store = log (requested_event client digest principal request s) w.store;
      } in
      audit_rule P (requested_event client digest principal request s)
        (λ _.
          when (is_opening s.status) (client.open_session s)
          >> pure (RequestSessionResult.created s))
        w h
        (after_rule P (λ _. pure (RequestSessionResult.created s))
          (when (is_opening s.status) (client.open_session s) w')
          (when_rule P (is_opening s.status) (client.open_session s) w' h
            (rw (client.open_keeps s w') h))
          (λ a w'' h'. h'))

  -- A Session that is not stored leaves the database alone.
  stored_rule :
      (s : Session) (fingerprint : String) (o : Option SessionRow) (w : World)
      → P w.store
      → P
          (stored_session client digest principal request s
            (replay_session fingerprint o)
            w).0.store
  unfolding stored_session
  stored_rule s fingerprint none w h = h
  stored_rule s fingerprint (some row) w h =
      elim (Bool-cases (row.request_fingerprint == fingerprint)) [
        | inl e ↦ rw (e, stored_session) h
        | inr e ↦ rw (e, stored_session) h
      ]

  open_admitted_rule :
      (key_hash fresh : String) (now : ℕ) (a : Admission) (w : World)
      → P w.store
      → ((machine : MachineAuthority)
          → let new = creation client digest principal request key_hash fresh now machine in
            a ≡ admitted machine
            → any (session_clash (session_insert new)) w.store.sessions ≡ false
            → P (with_session client digest principal request new w.store))
      → P (open_admitted client digest principal request key_hash fresh now a w).0.store
  unfolding open_admitted create_session
  open_admitted_rule key_hash fresh now (refused code) w same made = same
  open_admitted_rule key_hash fresh now (admitted machine) w same made =
      let new = creation client digest principal request key_hash fresh now machine in
      elim (Bool-cases (any (session_clash (session_insert new)) w.store.sessions)) [
        | inl e ↦
            rw (e, create_session)
              (stored_rule new.session new.request_fingerprint
                (session_by_idempotency w.store new.session.organization_id new.session.agent_id
                  key_hash)
                w same)
        | inr e ↦ rw (e, create_session) (announce_rule new.session _ (made machine refl e))
      ]

  -- `requestSession` leaves the database as it was, or adds one admitted Session with its event.
  pub request_session_rule :
      (key fresh : String) (now : ℕ) (w : World)
      → P w.store
      → ((machine : MachineAuthority)
          → let new =
              creation client digest principal request (digest.hash key) fresh now machine in
            (admission principal request
                (count_active_sessions w.store principal.organization_id request.machine_id)
                (machine_authority w.store principal.organization_id request.machine_id)
              ≡ admitted machine)
            → any (session_clash (session_insert new)) w.store.sessions ≡ false
            → P (with_session client digest principal request new w.store))
      → P (request_session client digest principal request key fresh now w).0.store
  unfolding request_session
  request_session_rule key fresh now w same made =
      elim (Option-cases (
        session_by_idempotency w.store principal.organization_id principal.agent_id
          (digest.hash key))) [
            | inl e ↦
                rw (e, request_session)
                  (open_admitted_rule (digest.hash key) fresh now _ w same made)
            | inr (row, e) ↦ rw (e, request_session) same
          ]
