-- ===== src/Server/Service/SessionRequests/Replay.antt =====
-- apps/server/src/sessions.ts: a request for a Session that is sent again.
use odyshell.Base.{
  ℕ, Bool, true, false, Option, none, some, ◌∷◌, String, ◌≡◌, refl, inl, inr, arith, any, ◌≢◌, find,
  Option-cases, Bool-cases,
}
use odyshell.Protocol.Session.{SessionRequest, Session}
use odyshell.Server.Store.{Store, MachineAuthority, SessionRow, log, is_opening}
use odyshell.Server.Store.Sessions.{
  session_insert, session_clash, session_by_idempotency, create_session, replay_session,
}
use odyshell.Server.Service.World.{
  World, M, audit_reply, ◌>>◌, Reply, returned, thrown, after, pure, when, when_rule,
}
use odyshell.Server.Service.Client.{SessionClient}
use odyshell.Server.Service.Principal.{AgentPrincipal, Digest}
use odyshell.Server.Service.SessionRequests.{
  Admission, RequestSessionResult, created, replayed, admitted, refused, session_fingerprint,
  announce_session, stored_session, open_admitted, replay_request, request_session,
}
use odyshell.Server.Service.SessionRequests.Effects.{creation, requested_event, with_session}

after-pure :
    {A : Type 0} (a r : A) (x : World × Reply (Unit {0})) (w : World)
    → after (λ _. pure a) x ≡ (w, returned r)
    → (r ≡ a) × (w ≡ x.0)
after-pure a r (v, returned u) w e = ground arith
after-pure a r (v, thrown f) w e = cc

-- An audit that fails returns nothing.
audit_worked :
    {B : Type 0} (f : Unit {0} → M B) (w : World) (works : Bool) (b : B) (later : World)
    → after f (w, audit_reply works) ≡ (later, returned b)
    → f tt w ≡ (later, returned b)
audit_worked f w true b later e = e
audit_worked f w false b later e = cc

module _ (client : SessionClient) (digest : Digest) (principal : AgentPrincipal)
    (request : SessionRequest) where
  announce_result :
      (s : Session) (r : RequestSessionResult) (w later : World)
      → announce_session client digest principal request s w ≡ (later, returned r)
      → (r ≡ created s)
        × (later.store ≡ log (requested_event client digest principal request s) w.store)
  unfolding announce_session
  announce_result s r w later e =
      let st = log (requested_event client digest principal request s) w.store in
      let w' : World = record w { store = st } in
      let worked =
        audit_worked (λ _. when (is_opening s.status) (client.open_session s) >> pure (created s))
          w' w.store.audit_open r later e in
      let (same, there) =
        after-pure (created s) r (when (is_opening s.status) (client.open_session s) w') later
          worked in
      (
        same,
        rw there (
            when_rule (λ st'. st' ≡ st) (is_opening s.status) (client.open_session s) w' refl
              (client.open_keeps s w')),
      )

  -- What is not stored is not reported as created.
  stored_result :
      (s t : Session) (fingerprint : String) (o : Option SessionRow) (w later : World)
      → stored_session client digest principal request s (replay_session fingerprint o) w
        ≢ (later, returned (created t))
  unfolding stored_session
  stored_result s t fingerprint none w later e = cc
  stored_result s t fingerprint (some row) w later e = ground arith

  -- What a request that creates the Session `t` leaves behind.
  abbrev pub Creates : (key fresh : String) (now : ℕ) → World → World → Session → Type 0
  Creates key fresh now w later t =
      (machine : MachineAuthority) × (let new =
          creation client digest principal request (digest.hash key) fresh now machine in
        (t ≡ new.session)
        × (later.store ≡ with_session client digest principal request new w.store))

  open_result :
      (key fresh : String) (now : ℕ) (a : Admission) (w later : World) (t : Session)
      → open_admitted client digest principal request (digest.hash key) fresh now a w
        ≡ (later, returned (created t))
      → Creates key fresh now w later t
  unfolding open_admitted create_session
  open_result key fresh now (refused code) w later t e = cc
  open_result key fresh now (admitted machine) w later t e =
      let new = creation client digest principal request (digest.hash key) fresh now machine in
      elim (Bool-cases (any (session_clash (session_insert new)) w.store.sessions)) [
        | inl clash ↦
            elim (stored_result new.session t new.request_fingerprint
              (session_by_idempotency w.store new.session.organization_id new.session.agent_id
                (digest.hash key))
              w later (rw (clash, create_session) at e)) [ ]
        | inr free ↦
            let stored : World = record w {
              store = record w.store { sessions = session_insert new ∷ w.store.sessions };
            } in
            let (same, there) =
              announce_result new.session (created t) stored later
                (rw (free, create_session, stored_session) at e) in
            (machine, (ground arith, there))
      ]

  pub request_result :
      (key fresh : String) (now : ℕ) (w later : World) (t : Session)
      → request_session client digest principal request key fresh now w
        ≡ (later, returned (created t))
      → Creates key fresh now w later t
  unfolding request_session
  request_result key fresh now w later t e =
      elim (Option-cases (
        session_by_idempotency w.store principal.organization_id principal.agent_id
          (digest.hash key))) [
            | inl missing ↦
                open_result key fresh now _ w later t (rw (missing, request_session) at e)
            | inr (row, at_row) ↦
                elim (not_created row (w, returned (replay_request fingerprint row)) later t refl
                  (rw (at_row, request_session) at e)) [ ]
          ]
    where
      fingerprint : String
      fingerprint = session_fingerprint client digest principal request

      not_created :
          (row : SessionRow) (answer : World × Reply RequestSessionResult) (later : World)
          (t : Session)
          → answer.1 ≡ returned (replay_request fingerprint row)
          → answer ≢ (later, returned (created t))
      not_created row answer later t is e = ground arith

  pub found_again :
      (key fresh : String) (now : ℕ) (machine : MachineAuthority) (st : Store)
      → let new = creation client digest principal request (digest.hash key) fresh now machine in
        session_by_idempotency
          (with_session client digest principal request new st)
          principal.organization_id
          principal.agent_id
          (digest.hash key)
        ≡ some (session_insert new)
  unfolding session_by_idempotency find log
  found_again key fresh now machine st = ground arith

  pub replay_known :
      (key fresh : String) (now : ℕ) (w : World) (row : SessionRow)
      → session_by_idempotency w.store principal.organization_id principal.agent_id
          (digest.hash key)
        ≡ some row
      → row.request_fingerprint ≡ session_fingerprint client digest principal request
      → request_session client digest principal request key fresh now w
        ≡ (w, returned (replayed row.session))
  unfolding request_session
  replay_known key fresh now w row at_row same = rw at_row (ground arith)
