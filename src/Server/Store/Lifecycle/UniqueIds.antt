-- ===== src/Server/Store/Lifecycle/UniqueIds.antt =====
-- Each method of the database keeps the primary key of the Sessions.
use odyshell.Base.{
  ℕ, Bool, false, Option, none, some, List, [], ◌∷◌, String, ◌≡◌, refl, arith, find, update, select,
  any, has_key, HasUniqueKeys, update-HasUniqueKeys,
}
use odyshell.Protocol.Session.{Session, SessionStatus}
use odyshell.Server.Store.{Store, SessionRow, change, session_key, append}
use odyshell.Server.Store.Sessions.{
  Decision, approve, deny, decide_session, expire_row, decide_row, session_clash,
}
use odyshell.Server.Store.Sessions.Effects.{pending_key, decide_session_rule}
use odyshell.Server.Store.Reports.{
  OpenedReport, mark_session_opened, mark_session_failed, mark_session_closed, open_row, finish_row,
  closed_status,
}
use odyshell.Server.Store.Reports.Effects.{
  opened_row, failed_row, closed_row, mark_session_opened_rule, mark_session_failed_rule,
  mark_session_closed_rule,
}
use odyshell.Server.Store.Endings.{
  Outcome, complete, cancel, finish_session, expire_sessions, end_row, lapsed, overdue, request_end,
  revoke_row, revoke_sessions, revocable,
}
use odyshell.Server.Store.Endings.Effects.{finish_session_rule, revoke_each_rule}
use odyshell.Server.Store.Lifecycle.{has_id}
use odyshell.Server.Store.Lifecycle.Methods.{row_id, HasUniqueIds}
use odyshell.Server.Store.Lifecycle.Revocation.{revoke_sessions-sessions}

-- A row that clashes with no other has a new id.
pub not_clash :
    (row : SessionRow) (xs : List SessionRow)
    → any (session_clash row) xs ≡ false
    → any (has_key row_id row.id) xs ≡ false
unfolding any
not_clash row [] h = refl
not_clash row (x ∷ xs) h = ground (arith, not_clash row xs)

pub not-any-has_id :
    (i : String) (xs : List SessionRow)
    → any (has_key row_id i) xs ≡ false
    → find (has_id i) xs ≡ none
unfolding any find
not-any-has_id i [] h = refl
not-any-has_id i (x ∷ xs) h = ground (arith, not-any-has_id i xs)

update_ids :
    (p : SessionRow → Bool) (f : Session → Session) (st : Store)
    → ((r : SessionRow) → (f r.session).id ≡ r.id)
    → HasUniqueIds st
    → HasUniqueKeys row_id (update p (change f) st.sessions)
update_ids p f st same unique = update-HasUniqueKeys row_id p (change f) st.sessions same unique

module _ (st : Store) (unique : HasUniqueIds st) where
  pub decide_session-HasUniqueIds :
      (organization_id session_id : String) (d : Decision) (now : ℕ)
      → HasUniqueIds (decide_session organization_id session_id d now st).0
  decide_session-HasUniqueIds organization_id session_id d now =
      decide_session_rule (λ later result. HasUniqueIds later) organization_id session_id d now st
        unique unique (λ current live. unique)
        (update_ids (pending_key organization_id session_id) (expire_row now) st (λ r. refl) unique)
        (λ s same.
          update_ids (pending_key organization_id session_id) (decide_row d now) st
            (λ r. decided_id d r.session) unique)
    where
      decided_id : (d : Decision) (s : Session) → (decide_row d now s).id ≡ s.id
      decided_id approve s = refl
      decided_id deny s = refl

  pub mark_session_opened-HasUniqueIds :
      (input : OpenedReport) (now : ℕ) → HasUniqueIds (mark_session_opened input now st).0
  unfolding append
  mark_session_opened-HasUniqueIds input now =
      let h = update_ids (opened_row input) (open_row now) st (λ r. refl) unique in
      mark_session_opened_rule HasUniqueIds input now st h (λ e. h)

  pub mark_session_failed-HasUniqueIds :
      (slice : String → String) (organization_id machine_id session_id error : String) (now : ℕ)
      → HasUniqueIds
          (mark_session_failed slice organization_id machine_id session_id error now st).0
  unfolding append
  mark_session_failed-HasUniqueIds slice organization_id machine_id session_id error now =
      let h =
        update_ids (failed_row organization_id machine_id session_id)
          (finish_row SessionStatus.failed now) st (λ r. refl) unique in
      mark_session_failed_rule HasUniqueIds slice organization_id machine_id session_id error now st
        h (λ e. h)

  pub mark_session_closed-HasUniqueIds :
      (organization_id machine_id session_id reason : String) (now : ℕ)
      → HasUniqueIds (mark_session_closed organization_id machine_id session_id reason now st).0
  unfolding append
  mark_session_closed-HasUniqueIds organization_id machine_id session_id reason now =
      let h =
        update_ids (closed_row organization_id machine_id session_id)
          (finish_row (closed_status reason) now) st (λ r. refl) unique in
      mark_session_closed_rule HasUniqueIds organization_id machine_id session_id reason now st h
        (λ e. h)

  pub expire_sessions-HasUniqueIds : (now : ℕ) → HasUniqueIds (expire_sessions now st).0
  unfolding expire_sessions
  expire_sessions-HasUniqueIds now =
      update-HasUniqueKeys row_id (overdue now) (change request_end)
        (update (lapsed now) (change (expire_row now)) st.sessions) (λ r. refl)
        (update_ids (lapsed now) (expire_row now) st (λ r. refl) unique)

  pub finish_session-HasUniqueIds :
      (organization_id agent_id session_id : String) (d : Outcome) (now : ℕ)
      → HasUniqueIds (finish_session organization_id agent_id session_id d now st).0
  finish_session-HasUniqueIds organization_id agent_id session_id d now =
      finish_session_rule HasUniqueIds organization_id agent_id session_id now st d unique
        (λ current at_current going idle commands stopped.
          update_ids (session_key organization_id session_id) (end_row d now) st
            (λ r. ended_id d r.session) unique)
    where
      ended_id : (d : Outcome) (s : Session) → (end_row d now s).id ≡ s.id
      ended_id complete s = refl
      ended_id cancel s = refl

  pub revoke_sessions-HasUniqueIds :
      (organization_id : String) (agent_id machine_id : Option String) (now : ℕ) (later : Store)
      (revoked : List (Session × List String))
      → revoke_sessions organization_id agent_id machine_id now st ≡ some (later, revoked)
      → HasUniqueIds later
  revoke_sessions-HasUniqueIds organization_id agent_id machine_id now later revoked e =
      rw (← revoke_sessions-sessions organization_id agent_id machine_id now st later revoked e) (
        revoke_each_rule HasUniqueIds organization_id now
          (λ s later' h.
            update_ids (session_key organization_id s.id) (revoke_row now) later' (λ r. refl) h)
          (select (revocable organization_id agent_id machine_id) st.sessions) st unique)
