-- ===== src/Server/Store/Endings/Effects.antt =====
-- What `finishSession` and `revokeSessions` leave in the database, as rules.
use odyshell.Base.{
  ℕ, Bool, false, ◌&&◌, Option, none, some, List, [], ◌∷◌, String, ◌≡◌, refl, ap, ◌⊎◌, inl, inr,
  Bool-cases, ltb, length, find, select, update, remove, ◌==◌,
}
use odyshell.Protocol.Session.{Session}
use odyshell.Server.Store.{
  Store, SessionRow, CommandRow, change, change_command, session_key, is_finished,
}
use odyshell.Server.Store.Authorities.{authority_key}
use odyshell.Server.Store.Commands.{active_in, cancel_row}
use odyshell.Server.Store.Endings.{
  Outcome, complete, cancel, ids, mem_id, end_row, end_session, finish_found, finish_session,
  revoke_each, revoke_row, forget_machine, revoke_sessions, revocable,
}

abbrev pub active_commands : String → String → Store → List CommandRow
active_commands organization_id session_id st =
    select (active_in organization_id session_id) st.commands

abbrev pub in_ids : String → List String → CommandRow → Bool
in_ids organization_id is r = r.organization_id == organization_id && mem_id is r.id

abbrev pub is_busy : String → String → Store → Bool
is_busy organization_id session_id st =
    ltb 0 (length (active_commands organization_id session_id st))

-- The Commands as they were, or with those of the Session asked to stop.
abbrev pub IsStopped : String → String → Store → List CommandRow → Type 0
IsStopped organization_id session_id st commands =
    (commands ≡ st.commands)
    ⊎ (commands
        ≡ update (in_ids organization_id (ids (active_commands organization_id session_id st)))
            (change_command cancel_row) st.commands)

abbrev pub with_end : String → String → Outcome → ℕ → List CommandRow → Store → Store
with_end organization_id session_id outcome now commands st = record st {
  commands = commands;
  sessions =
      update (session_key organization_id session_id) (change (end_row outcome now)) st.sessions;
}

module _ {ℓ} (P : Store → Type ℓ) (organization_id agent_id session_id : String) (now : ℕ)
    (st : Store) where
  end_session_rule :
      (outcome : Outcome) (current : SessionRow)
      → P st
      → ((outcome ≡ complete → is_busy organization_id session_id st ≡ false)
          → (commands : List CommandRow) → IsStopped organization_id session_id st commands
          → P (with_end organization_id session_id outcome now commands st))
      → P (end_session st organization_id session_id outcome now current).0
  unfolding end_session
  end_session_rule complete current same ends =
      elim (Bool-cases (is_busy organization_id session_id st)) [
        | inl busy ↦ rw (busy, end_session) same
        | inr idle ↦ rw (idle, end_session) (ends (λ e. idle) st.commands (inl refl))
      ]
  end_session_rule cancel current same ends =
      elim (Bool-cases (is_busy organization_id session_id st)) [
        | inl busy ↦ rw (busy, end_session) (ends (λ e. cc) _ (inr refl))
        | inr idle ↦ rw (idle, end_session) (ends (λ e. idle) st.commands (inl refl))
      ]

  finish_found_rule :
      (outcome : Outcome) (o : Option SessionRow)
      → P st
      → ((current : SessionRow)
          → o ≡ some current
          → is_finished current.status ≡ false
          → (outcome ≡ complete → is_busy organization_id session_id st ≡ false)
          → (commands : List CommandRow) → IsStopped organization_id session_id st commands
          → P (with_end organization_id session_id outcome now commands st))
      → P (finish_found st organization_id session_id outcome now o).0
  unfolding finish_found
  finish_found_rule outcome none same ends = same
  finish_found_rule outcome (some current) same ends =
      elim (Bool-cases (is_finished current.status)) [
        | inl e ↦ rw (e, finish_found) same
        | inr e ↦ rw (e, finish_found) (end_session_rule outcome current same (ends current refl e))
      ]

  -- `finishSession` changes nothing, or ends the Agent's unfinished Session; it completes only a
  -- Session without active Commands.
  pub finish_session_rule :
      (outcome : Outcome)
      → P st
      → ((current : SessionRow)
          → (find
                (λ r. session_key organization_id session_id r && r.agent_id == agent_id)
                st.sessions
              ≡ some current)
          → is_finished current.status ≡ false
          → (outcome ≡ complete → is_busy organization_id session_id st ≡ false)
          → (commands : List CommandRow) → IsStopped organization_id session_id st commands
          → P (with_end organization_id session_id outcome now commands st))
      → P (finish_session organization_id agent_id session_id outcome now st).0
  unfolding finish_session
  finish_session_rule outcome same ends = finish_found_rule outcome _ same ends

kept_store : (st : Store) {a b : Store × List (Session × List String)} → some a ≡ some b → a.0 ≡ b.0
kept_store st e = ap (λ o. elim o [ none ↦ st | some r ↦ r.0 ]) e

module _ {ℓ} (P : Store → Type ℓ) (organization_id : String) (now : ℕ) where
  -- What one round of the revocation keeps, the loop keeps.
  pub revoke_each_rule :
      ((s : SessionRow) (st : Store)
        → P st
        → P (record st {
          commands =
              update (active_in organization_id s.id) (change_command cancel_row) st.commands;
          sessions =
              update (session_key organization_id s.id) (change (revoke_row now)) st.sessions;
        }))
      → (rows : List SessionRow) (st : Store) → P st
      → P (revoke_each organization_id now rows st).0
  unfolding revoke_each
  revoke_each_rule round [] st h = h
  revoke_each_rule round (s ∷ ss) st h = revoke_each_rule round ss _ (round s st h)

  -- A revocation that is not refused does its rounds, and may forget a Machine.
  pub revoke_sessions_rule :
      (agent_id machine_id : Option String) (st later : Store)
      (revoked : List (Session × List String))
      → P
          (revoke_each organization_id now
            (select (revocable organization_id agent_id machine_id) st.sessions)
            st).0
      → ((machine : String) (later : Store)
          → P later
          → P (record later {
            authorities = remove (authority_key organization_id machine) later.authorities;
          }))
      → revoke_sessions organization_id agent_id machine_id now st ≡ some (later, revoked)
      → P later
  unfolding revoke_sessions forget_machine
  revoke_sessions_rule none none st later revoked h forget e = cc
  revoke_sessions_rule (some a) none st later revoked h forget e = rw (← kept_store st e) h
  revoke_sessions_rule none (some m) st later revoked h forget e =
      rw (← kept_store st e) (forget m _ h)
  revoke_sessions_rule (some a) (some m) st later revoked h forget e =
      rw (← kept_store st e) (forget m _ h)
