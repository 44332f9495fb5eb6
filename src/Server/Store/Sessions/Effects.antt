-- ===== src/Server/Store/Sessions/Effects.antt =====
-- What `decideSession` leaves in the database, as a rule.
use odyshell.Base.{
  ℕ, Bool, true, false, ◌&&◌, Option, none, some, String, ◌≡◌, refl, inl, inr, Bool-cases, leb,
  find, update, arith, find-and, find-test,
}
use odyshell.Protocol.Session.{Session}
use odyshell.Server.Store.{Store, SessionRow, change, session_key, is_pending, is_live}
use odyshell.Server.Store.Sessions.{
  Decision, Decided, approve, deny, approved, denied, decided, expire_row, decide_row, is_approve,
  decide_pending, decide_found, decide_session,
}

abbrev pub pending_key : String → String → SessionRow → Bool
pending_key organization_id session_id r =
    session_key organization_id session_id r && is_pending r.status

-- The result of a decision that takes effect.
abbrev pub settled : Decision → Session → Decided
settled approve s = approved s true
settled deny s = denied s true

decided_row :
    (d : Decision) (r : SessionRow) (now : ℕ)
    → decided d (some (change (decide_row d now) r)) ≡ settled d (decide_row d now r.session)
decided_row approve r now = refl
decided_row deny r now = refl

module _ {ℓ} (P : Store → Decided → Type ℓ) (organization_id session_id : String)
    (decision : Decision) (now : ℕ) (st : Store) where
  decide_found_rule :
      (o : Option SessionRow)
      → P st Decided.not_found
      → P st Decided.conflict
      → ((current : SessionRow)
          → o ≡ some current
          → is_approve decision ≡ true
          → is_live current.status ≡ true
          → P st (Decided.approved current.session false))
      → ((current : SessionRow)
          → o ≡ some current
          → is_pending current.status ≡ true
          → let r = decide_pending st organization_id session_id decision now current in P r.0 r.1)
      → let r = decide_found st organization_id session_id decision now o in P r.0 r.1
  unfolding decide_found
  decide_found_rule none missing kept again pending = missing
  decide_found_rule (some current) missing kept again pending =
      elim (Bool-cases (is_approve decision && is_live current.status)) [
        | inl e ↦ rw (e, decide_found) (again current refl (ground arith) (ground arith))
        | inr e ↦ elim (Bool-cases (is_pending current.status)) [
          | inl k ↦ rw (e, k, decide_found) (pending current refl k)
          | inr k ↦ rw (e, k, decide_found) kept
        ]
      ]

  decide_pending_rule :
      (current : SessionRow)
      → find (session_key organization_id session_id) st.sessions ≡ some current
      → is_pending current.status ≡ true
      → P
          (record st {
            sessions =
                update
                  (pending_key organization_id session_id)
                  (change (expire_row now))
                  st.sessions;
          })
          Decided.conflict
      → ((s : Session)
          → s.id ≡ session_id
          → P
              (record st {
                sessions =
                    update
                      (pending_key organization_id session_id)
                      (change (decide_row decision now))
                      st.sessions;
              })
              (settled decision s))
      → let r = decide_pending st organization_id session_id decision now current in P r.0 r.1
  unfolding decide_pending
  decide_pending_rule current e pending lapses decides =
      elim (Bool-cases (leb current.expires_at now)) [
        | inl late ↦ rw (late, decide_pending) lapses
        | inr timely ↦
            let (r, at_r) =
              find-and (session_key organization_id session_id)
                (λ (r : SessionRow). is_pending r.status) st.sessions current e pending in
            let fits : pending_key organization_id session_id r ≡ true =
              find-test (pending_key organization_id session_id) st.sessions r at_r in
            rw (timely, decide_pending)
              (rw (at_r, decided_row decision r now)
                (decides (decide_row decision now r.session) (row_id decision r fits)))
      ]
    where
      row_id :
          (d : Decision) (r : SessionRow)
          → pending_key organization_id session_id r ≡ true
          → (decide_row d now r.session).id ≡ session_id
      row_id approve r h = ground arith
      row_id deny r h = ground arith

  -- `decideSession` changes nothing, lets a Session that has run out expire, or decides on it.
  pub decide_session_rule :
      P st Decided.not_found
      → P st Decided.conflict
      → ((current : SessionRow)
          → is_live current.status ≡ true
          → P st (Decided.approved current.session false))
      → P
          (record st {
            sessions =
                update
                  (pending_key organization_id session_id)
                  (change (expire_row now))
                  st.sessions;
          })
          Decided.conflict
      → ((s : Session)
          → s.id ≡ session_id
          → P
              (record st {
                sessions =
                    update
                      (pending_key organization_id session_id)
                      (change (decide_row decision now))
                      st.sessions;
              })
              (settled decision s))
      → let r = decide_session organization_id session_id decision now st in P r.0 r.1
  unfolding decide_session
  decide_session_rule missing kept again lapses decides =
      decide_found_rule (find (session_key organization_id session_id) st.sessions) missing kept
        (λ current e d live. again current live)
        (λ current e pending. decide_pending_rule current e pending lapses decides)
