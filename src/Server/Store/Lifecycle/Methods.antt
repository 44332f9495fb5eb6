-- ===== src/Server/Store/Lifecycle/Methods.antt =====
-- Each method of the database lets every Session continue its life.
use odyshell.Base.{
  ℕ, Bool, true, false, ◌&&◌, String, ◌≡◌, refl, arith, ◌==◌, update, find-test, find_unique,
  HasUniqueKeys,
}
use odyshell.Protocol.Session.{Session, SessionStatus}
use odyshell.Server.Store.{Store, SessionRow, change, session_key, is_finished, append}
use odyshell.Server.Store.Sessions.{Decision, approve, deny, decide_session, expire_row, decide_row}
use odyshell.Server.Store.Sessions.Effects.{pending_key, decide_session_rule}
use odyshell.Server.Store.Reports.{
  OpenedReport, mark_session_opened, mark_session_failed, mark_session_closed, open_row, finish_row,
  closed_status,
}
use odyshell.Server.Store.Reports.Effects.{
  opened_row, failed_row, closed_row, mark_session_opened_rule, mark_session_failed_rule,
  mark_session_closed_rule,
}
use odyshell.Server.Store.Endings.{
  Outcome, complete, cancel, finish_session, expire_sessions, end_row, lapsed, overdue, request_end,
}
use odyshell.Server.Store.Endings.Effects.{finish_session_rule}
use odyshell.Server.Store.Lifecycle.{
  Advances, has_id, Continues, Continues-refl, Continues-trans, Continues-update,
}

abbrev pub row_id : SessionRow → String
row_id r = r.id

-- The primary key holds.
abbrev pub HasUniqueIds : Store → Type 0
HasUniqueIds st = HasUniqueKeys row_id st.sessions

-- What a method is to do for the Session of one id.
abbrev pub Carries : String → Store → Store → Type 0
Carries i st later = Continues i st.sessions later.sessions

module _ (i : String) (st : Store) where
  decide_Advances :
      (organization_id session_id : String) (d : Decision) (now : ℕ) (r : SessionRow)
      → pending_key organization_id session_id r ≡ true
      → Advances r (change (decide_row d now) r)
  decide_Advances organization_id session_id approve now r h = ground arith
  decide_Advances organization_id session_id deny now r h = ground arith

  decide_id : (d : Decision) (now : ℕ) (s : Session) → (decide_row d now s).id ≡ s.id
  decide_id approve now s = refl
  decide_id deny now s = refl

  pub decide_session-Carries :
      (organization_id session_id : String) (d : Decision) (now : ℕ)
      → Carries i st (decide_session organization_id session_id d now st).0
  decide_session-Carries organization_id session_id d now =
      decide_session_rule (λ later result. Carries i st later) organization_id session_id d now st
        (Continues-refl i st.sessions) (Continues-refl i st.sessions)
        (λ current live. Continues-refl i st.sessions)
        (Continues-update i (pending_key organization_id session_id) (expire_row now) st.sessions
          (λ r at_r h. ground arith) (λ r. refl))
        (λ s same.
          Continues-update i (pending_key organization_id session_id) (decide_row d now) st.sessions
            (λ r at_r h. decide_Advances organization_id session_id d now r h)
            (λ r. decide_id d now r.session))

  pub mark_session_opened-Carries :
      (input : OpenedReport) (now : ℕ) → Carries i st (mark_session_opened input now st).0
  unfolding append
  mark_session_opened-Carries input now =
      let goes =
        Continues-update i (opened_row input) (open_row now) st.sessions (λ r at_r h. ground arith)
          (λ r. refl) in
      mark_session_opened_rule (Carries i st) input now st goes (λ e. goes)

  pub mark_session_failed-Carries :
      (slice : String → String) (organization_id machine_id session_id error : String) (now : ℕ)
      → Carries i st
          (mark_session_failed slice organization_id machine_id session_id error now st).0
  unfolding append
  mark_session_failed-Carries slice organization_id machine_id session_id error now =
      let goes =
        Continues-update i (failed_row organization_id machine_id session_id)
          (finish_row SessionStatus.failed now) st.sessions (λ r at_r h. ground arith)
          (λ r. refl) in
      mark_session_failed_rule (Carries i st) slice organization_id machine_id session_id error now
        st goes (λ e. goes)

  pub mark_session_closed-Carries :
      (organization_id machine_id session_id reason : String) (now : ℕ)
      → Carries i st (mark_session_closed organization_id machine_id session_id reason now st).0
  unfolding append
  mark_session_closed-Carries organization_id machine_id session_id reason now =
      let goes =
        Continues-update i (closed_row organization_id machine_id session_id)
          (finish_row (closed_status reason) now) st.sessions (λ r at_r h. ground arith)
          (λ r. refl) in
      mark_session_closed_rule (Carries i st) organization_id machine_id session_id reason now st
        goes (λ e. goes)

  pub expire_sessions-Carries : (now : ℕ) → Carries i st (expire_sessions now st).0
  unfolding expire_sessions
  expire_sessions-Carries now =
      let dropped = update (lapsed now) (change (expire_row now)) st.sessions in
      Continues-trans i st.sessions dropped (update (overdue now) (change request_end) dropped)
        (Continues-update i (lapsed now) (expire_row now) st.sessions (λ r at_r h. ground arith)
          (λ r. refl))
        (Continues-update i (overdue now) request_end dropped (λ r at_r h. ground arith)
          (λ r. refl))

  end_Advances :
      (d : Outcome) (now : ℕ) (r : SessionRow)
      → is_finished r.status ≡ false
      → Advances r (change (end_row d now) r)
  end_Advances complete now r h = ground arith
  end_Advances cancel now r h = ground arith

  end_id : (d : Outcome) (now : ℕ) (s : Session) → (end_row d now s).id ≡ s.id
  end_id complete now s = refl
  end_id cancel now s = refl

  -- The primary key makes the row that is updated the row that was checked.
  pub finish_session-Carries :
      (organization_id agent_id session_id : String) (d : Outcome) (now : ℕ)
      → HasUniqueIds st
      → Carries i st (finish_session organization_id agent_id session_id d now st).0
  finish_session-Carries organization_id agent_id session_id d now unique =
      finish_session_rule (Carries i st) organization_id agent_id session_id now st d
        (Continues-refl i st.sessions)
        (λ current at_current going idle commands stopped.
          let owned : SessionRow → Bool =
            λ r. session_key organization_id session_id r && r.agent_id == agent_id in
          let key : owned current ≡ true = find-test owned st.sessions current at_current in
          Continues-update i (session_key organization_id session_id) (end_row d now) st.sessions
            (λ r at_r h.
              let same : r ≡ current =
                find_unique row_id (has_id i) owned st.sessions r current unique at_r at_current
                  (same_id organization_id agent_id session_id r current h key) in
              rw same (end_Advances d now current going))
            (λ r. end_id d now r.session))
    where
      same_id :
          (o a s : String) (r c : SessionRow)
          → session_key o s r ≡ true
          → (session_key o s c && c.agent_id == a) ≡ true
          → r.id ≡ c.id
      same_id o a s r c h k = ground arith
