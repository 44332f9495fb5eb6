-- ===== src/Server/System/Limits.antt =====
-- How many Commands of a Session are active at once.
pub mod Updates
pub mod History
use odyshell.Base.{
  ℕ, string_discrete, ◌≢◌, suc, ◌+◌, ◌≤◌, ◌<◌, Bool, true, false, not, ◌&&◌, ◌||◌, Option, none,
  some, List, [], ◌∷◌, String, ◌≡◌, refl, sym, ap, inl, inr, arith, ◌==◌, find, update, select, any,
  length, All, All-map, All-update, has_key, HasUniqueKeys, update-HasUniqueKeys, any-update,
  All-find_unique, find-test, length-select-update, Option-cases, Bool-cases,
}
use odyshell.Protocol.Session.{Session, Command, CommandStatus}
use odyshell.Server.Store.{
  Store, SessionRow, CommandRow, change, change_command, session_key, command_key,
  is_active_command,
}
use odyshell.Server.Store.Sessions.{session, row_session}
use odyshell.Server.Store.Commands.{active_in, count_active_commands}
use odyshell.Server.System.Output.{command_id_of}
use odyshell.Server.Store.Lifecycle.Methods.{row_id}

-- A Command belongs to a Session that is there.
abbrev pub Refers : List SessionRow → CommandRow → Type 0
Refers sessions c = any (has_key row_id c.session_id) sessions ≡ true

-- What an update of Sessions is not to touch.
pub record Regular (f : Session → Session) : Type 0 where
  pub same_id : (s : Session) → (f s).id ≡ s.id
  pub same_organization : (s : Session) → (f s).organization_id ≡ s.organization_id
  pub same_limit : (s : Session) → (f s).max_concurrent_commands ≡ s.max_concurrent_commands

-- What an update of Commands is not to touch.
pub record Quiet (f : Command → Command) : Type 0 where
  pub same_id : (c : Command) → (f c).id ≡ c.id
  pub same_session : (c : Command) → (f c).session_id ≡ c.session_id
  pub same_organization : (c : Command) → (f c).organization_id ≡ c.organization_id

-- A Session without Commands.
no_commands :
    (o i : String) (sessions : List SessionRow) (commands : List CommandRow)
    → any (has_key row_id i) sessions ≡ false
    → All (Refers sessions) commands
    → select (active_in o i) commands ≡ []
unfolding select
no_commands o i sessions [] fresh refers = refl
no_commands o i sessions (c ∷ cs) fresh (held, refers) =
    let other : (c.session_id == i) ≡ false = stranger c.session_id held in
    ground (arith, no_commands o i sessions cs fresh refers)
  where
    stranger : (j : String) → any (has_key row_id j) sessions ≡ true → (j == i) ≡ false
    stranger j held = ground arith

module _ (reserved : String → ℕ) (slack : ℕ) where
  -- A Session's active Commands, with those reserved for it, are no more than it was granted and `slack`.
  abbrev pub Within : List CommandRow → SessionRow → Type 0
  Within commands r =
      length (select (active_in r.organization_id r.id) commands) + reserved r.id
      ≤ r.max_concurrent_commands + slack

  abbrev pub KeepsLimits : List SessionRow → List CommandRow → Type 0
  KeepsLimits sessions commands =
      HasUniqueKeys row_id sessions
      × HasUniqueKeys command_id_of commands
      × All (Refers sessions) commands
      × All (Within commands) sessions

  pub session_update :
      (p : SessionRow → Bool) (f : Session → Session) (sessions : List SessionRow)
      (commands : List CommandRow)
      → Regular f
      → KeepsLimits sessions commands
      → KeepsLimits (update p (change f) sessions) commands
  session_update p f sessions commands regular (unique, own, refers, within) = (
    update-HasUniqueKeys row_id p (change f) sessions (λ r. regular.same_id r.session) unique,
    own,
    All-map (Refers (update p (change f) sessions)) commands
        (λ c held.
          rw (any-update row_id p (change f) c.session_id sessions (λ r. regular.same_id r.session))
            held)
        refers,
    All-update (Within commands) p (change f) sessions
        (λ r at_r fits.
          rw
            (
              regular.same_id r.session,
              regular.same_organization r.session,
              regular.same_limit r.session,
            )
            fits)
        within,
  )

  pub command_update :
      (p : CommandRow → Bool) (f : Command → Command) (sessions : List SessionRow)
      (commands : List CommandRow)
      → Quiet f
      → All
          (λ c.
            p c ≡ true
            → is_active_command (f c.command_record).status ≡ true
            → is_active_command c.status ≡ true)
          commands
      → KeepsLimits sessions commands
      → KeepsLimits sessions (update p (change_command f) commands)
  command_update p f sessions commands quiet calm (unique, own, refers, within) = (
    unique,
    update-HasUniqueKeys command_id_of p (change_command f) commands
        (λ c. quiet.same_id c.command_record) own,
    All-update (Refers sessions) p (change_command f) commands
        (λ c at_c held. rw (quiet.same_session c.command_record) held) refers,
    All-map (Within (update p (change_command f) commands)) sessions
        (λ r fits.
          let less =
            length-select-update (active_in r.organization_id r.id) p (change_command f) commands (
              All-map _ commands
                (λ c still at_c now_active. active_before r c at_c still now_active) calm) in
          omega arith)
        within,
  )
    where
      active_before :
          (r : SessionRow) (c : CommandRow)
          → p c ≡ true
          → (p c ≡ true
              → is_active_command (f c.command_record).status ≡ true
              → is_active_command c.status ≡ true)
          → active_in r.organization_id r.id (change_command f c) ≡ true
          → active_in r.organization_id r.id c ≡ true
      active_before r c at_c still now_active =
          let one = quiet.same_session c.command_record in
          let two = quiet.same_organization c.command_record in ground (arith, still at_c)

  pub session_added_limits :
      (row : SessionRow) (sessions : List SessionRow) (commands : List CommandRow)
      → any (has_key row_id row.id) sessions ≡ false
      → reserved row.id ≤ row.max_concurrent_commands + slack
      → KeepsLimits sessions commands
      → KeepsLimits (row ∷ sessions) commands
  unfolding any
  session_added_limits row sessions commands fresh room (unique, own, refers, within) = (
    (fresh, unique),
    own,
    All-map (Refers (row ∷ sessions)) commands (λ c held. ground arith) refers,
    (
      rw (no_commands row.organization_id row.id sessions commands fresh refers) (omega arith),
      within,
    ),
  )

-- A reserved Command that comes to be.
command_takes_place :
    (reserved later : String → ℕ) (slack : ℕ) (row : CommandRow) (r : SessionRow)
    (commands : List CommandRow)
    → ((i : String) → later i ≤ reserved i)
    → reserved row.session_id ≡ suc (later row.session_id)
    → Within reserved slack commands r
    → Within later slack (row ∷ commands) r
unfolding select
command_takes_place reserved later slack row r commands fewer one fits =
    elim (Bool-cases (active_in r.organization_id r.id row)) [
      | inl more ↦
          let same : row.session_id ≡ r.id = ground arith in
          let here : reserved r.id ≡ suc (later r.id) = rw same at one in rw more (omega arith)
      | inr none_more ↦ let less = fewer r.id in rw none_more (omega arith)
    ]

pub reserved_added_limits :
    (reserved later : String → ℕ) (slack : ℕ) (row : CommandRow) (sessions : List SessionRow)
    (commands : List CommandRow)
    → ((i : String) → later i ≤ reserved i)
    → reserved row.session_id ≡ suc (later row.session_id)
    → any (has_key row_id row.session_id) sessions ≡ true
    → any (has_key command_id_of row.id) commands ≡ false
    → KeepsLimits reserved slack sessions commands
    → KeepsLimits later slack sessions (row ∷ commands)
reserved_added_limits reserved later slack row sessions commands fewer one held fresh
      (unique, own, refers, within) =
    (
      unique,
      (fresh, own),
      (held, refers),
      All-map (Within later slack (row ∷ commands)) sessions
          (λ r fits. command_takes_place reserved later slack row r commands fewer one fits) within,
    )

-- One more is reserved for a Session that has room for it.
pub reserve_limits :
    (reserved later : String → ℕ) (slack : ℕ) (s : SessionRow) (q : SessionRow → Bool)
    (sessions : List SessionRow) (commands : List CommandRow)
    → find q sessions ≡ some s
    → Within later slack commands s
    → ((i : String) → i ≢ s.id → later i ≡ reserved i)
    → KeepsLimits reserved slack sessions commands
    → KeepsLimits later slack sessions commands
reserve_limits reserved later slack s q sessions commands at_s room others
      (unique, own, refers, within) =
    (
      unique,
      own,
      refers,
      within_later sessions (All-find_unique row_id q sessions s unique at_s) within,
    )
  where
    one_within :
        (r : SessionRow)
        → (row_id r ≡ row_id s → r ≡ s)
        → Within reserved slack commands r
        → Within later slack commands r
    one_within r same fits = elim (string_discrete r.id s.id) [
      | yes e ↦ let here : r ≡ s = same e in rw here room
      | no apart ↦ let kept = others r.id apart in omega arith
    ]

    within_later :
        (rs : List SessionRow)
        → All (λ r. row_id r ≡ row_id s → r ≡ s) rs
        → All (Within reserved slack commands) rs
        → All (Within later slack commands) rs
    within_later [] h k = tt
    within_later (r ∷ rs) h k = (one_within r h.0 k.0, within_later rs h.1 k.1)

-- What is reserved is given up.
pub give_up_limits :
    (reserved later : String → ℕ) (slack : ℕ) (sessions : List SessionRow)
    (commands : List CommandRow)
    → ((i : String) → later i ≤ reserved i)
    → KeepsLimits reserved slack sessions commands
    → KeepsLimits later slack sessions commands
give_up_limits reserved later slack sessions commands fewer (unique, own, refers, within) = (
  unique,
  own,
  refers,
  All-map (Within later slack commands) sessions (λ r fits. let less = fewer r.id in omega arith)
      within,
)
