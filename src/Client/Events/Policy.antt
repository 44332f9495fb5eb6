-- ===== src/Client/Events/Policy.antt =====
-- apps/client/src/index.ts: the Sessions and Commands that a Client lets live, against its Local Policy.
use odyshell.Base.{
  ℕ, ◌≤◌, ◌≡◌, refl, Bool, true, false, List, [], ◌∷◌, String, select, update, remove, any, length,
  arith, All, All-map, All-update, All-remove, HasUniqueKeys, string_discrete,
}
use odyshell.Client.Link.{has}
use odyshell.Client.Authority.{
  Client, ClientConfig, ActiveSession, RunningCommand, has_session_id, of_session,
}

abbrev pub session_key : ActiveSession → String
session_key s = s.session_id

abbrev pub running_in : String → List RunningCommand → ℕ
running_in i commands = length (select (of_session i) commands)

-- What Local Policy and its contract promise of a Session.
pub record IsAllowed (config : ClientConfig) (closed : List String) (commands : List RunningCommand)
    (s : ActiveSession) : Type 0 where
  pub organization : s.organization_id ≡ config.local_policy.organization_id
  pub profile : s.client_profile_id ≡ config.session_profile_id
  pub concurrency : s.max_concurrent_commands ≤ config.local_policy.max_concurrent_commands
  pub commands_within : running_in s.session_id commands ≤ s.max_concurrent_commands
  pub closing_if_closed : has s.session_id closed ≡ true → s.closing ≡ true

-- The Sessions are no more than Local Policy lets there be, each keeps to it and to its own limit of
-- Commands, and one that was closed takes no more Commands. Until the Client stops, every Command belongs
-- to a Session there is.
pub record IsWithin (config : ClientConfig) (stopped : Bool) (sessions : List ActiveSession)
    (closed : List String) (commands : List RunningCommand) : Type 0 where
  pub few : length sessions ≤ config.local_policy.max_concurrent_sessions
  pub unique : HasUniqueKeys session_key sessions
  pub kept : All (IsAllowed config closed commands) sessions
  pub homes :
      stopped ≡ false → All (λ r. any (has_session_id r.session_id) sessions ≡ true) commands

abbrev pub IsWithinPolicy : Client → Type 0
IsWithinPolicy c = IsWithin c.config c.stopped c.sessions c.closed_sessions c.commands

-- Commands that do not change their Session change no count.
pub running_in-update :
    (i : String) (p : RunningCommand → Bool) (f : RunningCommand → RunningCommand)
    (commands : List RunningCommand)
    → ((r : RunningCommand) → (f r).session_id ≡ r.session_id)
    → running_in i (update p f commands) ≡ running_in i commands
unfolding update select
running_in-update i p f [] same = refl
running_in-update i p f (r ∷ commands) same =
    ground (arith, same r, running_in-update i p f commands same)

running_in-remove :
    (i : String) (p : RunningCommand → Bool) (commands : List RunningCommand)
    → running_in i (remove p commands) ≤ running_in i commands
unfolding remove select
running_in-remove i p [] = omega arith
running_in-remove i p (r ∷ commands) = ground (arith, running_in-remove i p commands)

pub running_in-homeless :
    (i : String) (sessions : List ActiveSession) (commands : List RunningCommand)
    → any (has_session_id i) sessions ≡ false
    → All (λ r. any (has_session_id r.session_id) sessions ≡ true) commands
    → running_in i commands ≡ 0
unfolding select
running_in-homeless i sessions [] fresh homes = refl
running_in-homeless i sessions (r ∷ commands) fresh (home, homes) =
    let rest = running_in-homeless i sessions commands fresh homes in
    elim (string_discrete r.session_id i) [
      | yes same ↦ let there : any (has_session_id i) sessions ≡ true = rw same at home in cc
      | no other ↦ ground arith
    ]

-- Commands with no more of them in any Session, and still at home.
pub commands-IsWithin :
    (config : ClientConfig) (stopped : Bool) (sessions : List ActiveSession) (closed : List String)
    (commands later : List RunningCommand)
    → ((i : String) → running_in i later ≤ running_in i commands)
    → ((P : String → Type 0) → All (λ r. P r.session_id) commands → All (λ r. P r.session_id) later)
    → IsWithin config stopped sessions closed commands
    → IsWithin config stopped sessions closed later
commands-IsWithin config stopped sessions closed commands later fewer home h = record {
  few = h.few;
  unique = h.unique;
  kept =
      All-map (IsAllowed config closed later) sessions
        (λ s a.
          let before = a.commands_within in
          let after = fewer s.session_id in
          record {
            organization = a.organization;
            profile = a.profile;
            concurrency = a.concurrency;
            commands_within = omega arith;
            closing_if_closed = a.closing_if_closed;
          })
        h.kept;
  homes = λ going. home (λ i. any (has_session_id i) sessions ≡ true) (h.homes going);
}

pub update-IsWithin :
    (config : ClientConfig) (stopped : Bool) (sessions : List ActiveSession) (closed : List String)
    (p : RunningCommand → Bool) (f : RunningCommand → RunningCommand)
    (commands : List RunningCommand)
    → ((r : RunningCommand) → (f r).session_id ≡ r.session_id)
    → IsWithin config stopped sessions closed commands
    → IsWithin config stopped sessions closed (update p f commands)
update-IsWithin config stopped sessions closed p f commands same h =
    commands-IsWithin config stopped sessions closed commands (update p f commands)
      (λ i. let equal = running_in-update i p f commands same in omega arith)
      (λ P all. All-update (λ r. P r.session_id) p f commands (λ r e k. rw (same r) k) all) h

pub remove-IsWithin :
    (config : ClientConfig) (stopped : Bool) (sessions : List ActiveSession) (closed : List String)
    (p : RunningCommand → Bool) (commands : List RunningCommand)
    → IsWithin config stopped sessions closed commands
    → IsWithin config stopped sessions closed (remove p commands)
remove-IsWithin config stopped sessions closed p commands h =
    commands-IsWithin config stopped sessions closed commands (remove p commands)
      (λ i. running_in-remove i p commands)
      (λ P all. All-remove (λ r. P r.session_id) p commands all) h
