-- ===== src/Server/System/Lifecycle.antt =====
-- The life of each Session over the Server's history.
use odyshell.Base.{
  ℕ, Bool, true, false, some, List, [], ◌∷◌, String, ◌≡◌, arith, any, find, Follows-cons,
}
use odyshell.Protocol.Session.{SessionStatus}
use odyshell.Protocol.Messages.{
  ClientMessage, session_opened, session_open_failed, session_closed, command_started,
  command_output, command_completed,
}
use odyshell.Server.Store.{log, Store, SessionRow, append, is_finished}
use odyshell.Server.Store.Authorities.{put_machine_authority, set_machine_online}
use odyshell.Server.Store.Sessions.{session_insert, session_clash}
use odyshell.Server.Store.Commands.Effects.{request_command_cancellation_rule}
use odyshell.Server.Store.Reports.{mark_command_started, purge_expired_command_output}
use odyshell.Server.Store.Reports.Effects.{mark_command_completed_rule, add_command_output_rule}
use odyshell.Server.Store.Reconnect.{present}
use odyshell.Server.Store.Lifecycle.{
  Advances, Advances-refl, has_id, Continues, Continues-refl, Continues-trans, can_become,
}
use odyshell.Server.Store.Lifecycle.Methods.{
  HasUniqueIds, Carries, decide_session-Carries, mark_session_opened-Carries,
  mark_session_failed-Carries, mark_session_closed-Carries, expire_sessions-Carries,
  finish_session-Carries,
}
use odyshell.Server.Store.Lifecycle.Revocation.{revoke_sessions-Carries}
use odyshell.Server.Store.Lifecycle.UniqueIds.{
  not_clash, not-any-has_id, decide_session-HasUniqueIds, mark_session_opened-HasUniqueIds,
  mark_session_failed-HasUniqueIds, mark_session_closed-HasUniqueIds, expire_sessions-HasUniqueIds,
  finish_session-HasUniqueIds, revoke_sessions-HasUniqueIds,
}
use odyshell.Server.Service.World.{World}
use odyshell.Server.Service.Client.{SessionClient}
use odyshell.Server.Service.Principal.{Digest}
use odyshell.Server.Service.SessionRequests.Effects.{creation as session_creation}
use odyshell.Server.Service.Supervision.Effects.{audited-sessions}
use odyshell.Server.System.Hooks.{MachineContext}
use odyshell.Server.System.Hooks.Effects.{report}
use odyshell.Server.System.Steps.{Action, step, run}
use odyshell.Server.System.Transitions.{
  Transition, Cause, unchanged, audit_switched, session_added, command_added, supervised, finished,
  command_cancelled, reported, machine_stored, machine_offline, swept, sessions_revoked,
  output_purged, step-Transition,
}

-- What a step is to keep of the Sessions from a database to a later one.
abbrev Keeps : Store → Store → Type 0
Keeps st later = ((i : String) → Carries i st later) × HasUniqueIds later

kept : (st : Store) → HasUniqueIds st → Keeps st st
kept st unique = ((λ i. Continues-refl i st.sessions), unique)

finished_stays : (s t : SessionStatus) → is_finished s ≡ true → can_become s t ≡ true → t ≡ s
finished_stays s t over on = ground arith

added :
    (row : SessionRow) (st : Store)
    → any (session_clash row) st.sessions ≡ false
    → HasUniqueIds st
    → Keeps st (record st { sessions = row ∷ st.sessions })
added row st new unique =
    let fresh = not_clash row st.sessions new in
    (
      (λ i. Follows-cons Advances (has_id i) row st.sessions Advances-refl (λ at_i.
          let id : row.id ≡ i = ground arith in not-any-has_id i st.sessions (rw id at fresh))),
      (fresh, unique),
    )

module _ (slice : String → String) where
  report-Keeps :
      (m : MachineContext) (msg : ClientMessage) (now : ℕ) (st : Store)
      → HasUniqueIds st
      → Keeps st (report slice m msg now st)
  unfolding mark_command_started append
  report-Keeps m (session_opened s p u) now st unique = (
    (λ i. mark_session_opened-Carries i st _ now),
    mark_session_opened-HasUniqueIds st unique _ now,
  )
  report-Keeps m (session_open_failed s e) now st unique = (
    (λ i. mark_session_failed-Carries i st slice m.organization_id m.machine_id s e now),
    mark_session_failed-HasUniqueIds st unique slice m.organization_id m.machine_id s e now,
  )
  report-Keeps m (session_closed s r) now st unique = (
    (λ i. mark_session_closed-Carries i st m.organization_id m.machine_id s r now),
    mark_session_closed-HasUniqueIds st unique m.organization_id m.machine_id s r now,
  )
  report-Keeps m (command_started c at) now st unique = kept st unique
  report-Keeps m (command_output c n s b) now st unique =
      add_command_output_rule (Keeps st) _ now st (kept st unique)
        (λ c at_c fits new. kept st unique)
  report-Keeps m (command_completed r) now st unique =
      mark_command_completed_rule (Keeps st) slice m.organization_id m.machine_id
        (record r { error = present r.error }) st (kept st unique) (λ e. kept st unique)

module _ (client : SessionClient) (digest : Digest) (slice : String → String) where
  Transition-Keeps :
      {cause : Cause} (st later : Store)
      → HasUniqueIds st
      → Transition client digest slice cause st later
      → Keeps st later
  unfolding append log put_machine_authority set_machine_online purge_expired_command_output
  Transition-Keeps st later unique unchanged = kept st unique
  Transition-Keeps st later unique (session_added p r key fresh now machine may admitted new) =
      added
        (session_insert (session_creation client digest p r (digest.hash key) fresh now machine)) st
        new unique
  Transition-Keeps st later unique (command_added may p s r key fresh at now s' t clear new held) =
      kept st unique
  Transition-Keeps st later unique (supervised p s d now may) = rw (audited-sessions p d _ _) (
    (λ i. decide_session-Carries i st p.organization_id s d now),
    decide_session-HasUniqueIds st unique p.organization_id s d now,
  )
  Transition-Keeps st later unique (finished o a s outcome now) = (
    (λ i. finish_session-Carries i st o a s outcome now unique),
    finish_session-HasUniqueIds st unique o a s outcome now,
  )
  Transition-Keeps st later unique (command_cancelled o a c) =
      request_command_cancellation_rule (Keeps st) o c st a (kept st unique)
        (λ current at_current active. kept st unique)
  Transition-Keeps st later unique (reported m msg now) = report-Keeps slice m msg now st unique
  Transition-Keeps st later unique (machine_stored authority same) = kept st unique
  Transition-Keeps st later unique (machine_offline o m) = kept st unique
  Transition-Keeps st later unique (swept now) =
      ((λ i. expire_sessions-Carries i st now), expire_sessions-HasUniqueIds st unique now)
  Transition-Keeps st later unique (sessions_revoked o a m now then ended e) = (
    (λ i. revoke_sessions-Carries i o a m now st then ended unique e),
    revoke_sessions-HasUniqueIds st unique o a m now then ended e,
  )
  Transition-Keeps st later unique (audit_switched works) = kept st unique
  Transition-Keeps st later unique (output_purged now) = kept st unique

module _ (client : SessionClient) (digest : Digest) (connected : String → Bool)
    (slice : String → String) where
  run-Keeps :
      (actions : List Action) (w : World)
      → HasUniqueIds w.store
      → Keeps w.store (run client digest connected slice actions w).store
  unfolding run
  run-Keeps [] w unique = kept w.store unique
  run-Keeps (a ∷ rest) w unique =
      let now = step client digest connected slice a w in
      let (goes, still) =
        Transition-Keeps client digest slice w.store now.store unique
          (step-Transition client digest connected slice a w) in
      let (on, end) = run-Keeps rest now still in
      ((λ i. Continues-trans i w.store.sessions now.store.sessions _ (goes i) (on i)), end)

  -- Over any history of the Server, from a database whose Sessions have different ids, the Session of
  -- an id keeps its row: its status is one that its life may lead to, and its Organization, Agent,
  -- Machine, profile, operating-system user, Command limit, creation time, key and fingerprint are
  -- those that it had.
  pub run-Continues :
      (i : String) (actions : List Action) (w : World)
      → HasUniqueIds w.store
      → Continues i w.store.sessions (run client digest connected slice actions w).store.sessions
  run-Continues i actions w unique = (run-Keeps actions w unique).0 i

  -- Over any history of the Server, from a database whose Sessions have different ids, a Session that
  -- is completed, cancelled, revoked, expired or failed is still there with that status.
  pub run-is_finished :
      (i : String) (actions : List Action) (w : World) (r : SessionRow)
      → HasUniqueIds w.store
      → find (has_id i) w.store.sessions ≡ some r
      → is_finished r.status ≡ true
      → (later : SessionRow) × (find
            (has_id i)
            (run client digest connected slice actions w).store.sessions
          ≡ some later)
        × (later.status ≡ r.status)
  run-is_finished i actions w r unique at_r over =
      let (later, at_later, on) = run-Continues i actions w unique r at_r in
      (later, at_later, finished_stays r.status later.status over on.becomes)
