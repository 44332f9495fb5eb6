-- ===== src/Client/Events/Sessions.antt =====
-- apps/client/src/index.ts: `openSession` and `closeSession` keep to Local Policy.
use odyshell.Base.{
  ℕ, ◌≡◌, ◌≢◌, refl, sym, inl, inr, true, false, ◌||◌, Option, none, some, List, [], ◌∷◌, ◌++◌,
  String, ◌==◌, if◌then◌else◌, eqb, find, find-any, update, remove, any, any-update, length,
  length-update, length-remove, arith, All, All-map, All-remove, update-HasUniqueKeys,
  remove-HasUniqueKeys, Bool-cases,
}
use odyshell.Protocol.Policy.{LocalSessionInput, LocalSessionDecision, allowed, denied}
use odyshell.Protocol.Decision.{local_session_decision-eq-allowed}
use odyshell.Protocol.Messages.{SessionOpen}
use odyshell.Client.Link.{has, add}
use odyshell.Client.Deadlines.{adjusted_session_deadline}
use odyshell.Client.Authority.{
  Client, ActiveSession, RunningCommand, ClosingSession, has_session_id, is_ended, of_session,
  cancelled, is_closing, at_most_thousand, close_session, settle_session, settle_found,
  open_session, open_new, open_until, open_decided, decide_open, new_session, seconds_until,
  send_session_opened, matches,
}
use odyshell.Client.Events.Policy.{
  session_key, IsAllowed, IsWithin, IsWithinPolicy, running_in-homeless, update-IsWithin,
}

-- A new Session that Local Policy allows.
open-IsWithinPolicy :
    (message : SessionOpen) (deadline seconds : ℕ) (c : Client)
    → IsWithinPolicy c
    → c.stopped ≡ false
    → c.config.session_profile_id ≡ message.client_profile_id
    → has message.session_id c.closed_sessions ≡ false
    → find (has_session_id message.session_id) c.sessions ≡ none
    → decide_open c message seconds ≡ allowed
    → IsWithin c.config c.stopped
        (new_session message deadline ∷ c.sessions)
        c.closed_sessions
        c.commands
unfolding any
open-IsWithinPolicy message deadline seconds c h going profile open_still fresh decision =
    let input : LocalSessionInput = record {
      organization_id = message.organization_id;
      duration_seconds = seconds;
      active_sessions = length c.sessions;
      max_concurrent_commands = message.max_concurrent_commands;
    } in
    let (organization, duration, room, concurrency) =
      (local_session_decision-eq-allowed c.config.local_policy input).0 decision in
    let none_there = find-any (has_session_id message.session_id) c.sessions fresh in
    let no_command =
      running_in-homeless message.session_id c.sessions c.commands none_there (h.homes going) in
    record {
      few = room;
      unique = (none_there, h.unique);
      kept = (
        record {
          organization = organization;
          profile = sym profile;
          concurrency = concurrency;
          commands_within = rw no_command (omega arith);
          closing_if_closed = λ closed. elim (apart closed) [ ];
        },
        h.kept,
      );
      homes = λ e.
          All-map
            (λ r.
              any (has_session_id r.session_id) (new_session message deadline ∷ c.sessions) ≡ true)
            c.commands (λ r home. wider r home) (h.homes e);
    }
  where
    apart : has message.session_id c.closed_sessions ≢ true
    apart closed = cc

    wider :
        (r : RunningCommand)
        → any (has_session_id r.session_id) c.sessions ≡ true
        → any (has_session_id r.session_id) (new_session message deadline ∷ c.sessions) ≡ true
    wider r home = ground arith

open_decided-IsWithinPolicy :
    (message : SessionOpen) (deadline seconds : ℕ) (c : Client)
    → IsWithinPolicy c
    → IsWithin c.config c.stopped
        (new_session message deadline ∷ c.sessions)
        c.closed_sessions
        c.commands
    → IsWithinPolicy (open_decided message deadline seconds allowed c)
unfolding send_session_opened
open_decided-IsWithinPolicy message deadline seconds c h opened =
    elim (Bool-cases (eqb seconds 0)) [ inl over ↦ rw over h | inr going ↦ rw going opened ]

open_new-IsWithinPolicy :
    (message : SessionOpen) (now : ℕ) (c : Client)
    → c.stopped ≡ false
    → IsWithinPolicy c
    → c.config.session_profile_id ≡ message.client_profile_id
    → has message.session_id c.closed_sessions ≡ false
    → IsWithinPolicy (open_new message now (find (has_session_id message.session_id) c.sessions) c)
unfolding send_session_opened
open_new-IsWithinPolicy message now c going h profile open_still =
    known (find (has_session_id message.session_id) c.sessions) refl
  where
    decided :
        (deadline seconds : ℕ) (d : LocalSessionDecision)
        → find (has_session_id message.session_id) c.sessions ≡ none
        → decide_open c message seconds ≡ d
        → IsWithinPolicy (open_decided message deadline seconds d c)
    decided deadline seconds (denied reason) e k = h
    decided deadline seconds allowed e k =
        open_decided-IsWithinPolicy message deadline seconds c h
          (open-IsWithinPolicy message deadline seconds c h going profile open_still e k)

    until :
        (o : Option ℕ)
        → find (has_session_id message.session_id) c.sessions ≡ none
        → IsWithinPolicy (open_until message now o c)
    until none e = h
    until (some deadline) e =
        let seconds = seconds_until deadline now in
        decided deadline seconds (decide_open c message seconds) e refl

    known :
        (o : Option ActiveSession)
        → find (has_session_id message.session_id) c.sessions ≡ o
        → IsWithinPolicy (open_new message now o c)
    known (some existing) e = elim (Bool-cases (matches message existing)) [
      | inl same ↦ rw same h
      | inr other ↦ rw other h
    ]
    known none e =
        until (adjusted_session_deadline message.expires_at (some message.server_time) now) e

pub open_session-IsWithinPolicy :
    (message : SessionOpen) (now : ℕ) (c : Client)
    → c.stopped ≡ false
    → IsWithinPolicy c
    → IsWithinPolicy (open_session message now c)
unfolding open_session
open_session-IsWithinPolicy message now c going h =
    elim (Bool-cases (c.config.session_profile_id == message.client_profile_id)) [
      | inr other ↦ rw (other, open_session) h
      | inl same ↦ elim (Bool-cases (has message.session_id c.closed_sessions)) [
        | inl closed ↦ rw (same, closed, open_session) h
        | inr open_still ↦
            rw (same, open_still, open_session)
              (open_new-IsWithinPolicy message now c going h (ground arith) open_still)
      ]
    ]

has-append : (i j : String) (ids : List String) → has j (ids ++ i ∷ []) ≡ (has j ids || (i == j))
unfolding any
has-append i j [] = ground arith
has-append i j (x ∷ ids) = ground (arith, has-append i j ids)

-- Only the Session that is closed is newly among the closed.
has-closed :
    (i j : String) (ids : List String)
    → i ≢ j
    → has j (at_most_thousand (add i ids)) ≡ true
    → has j ids ≡ true
unfolding add any
has-closed i j ids other h = added (at_most (add i ids) h)
  where
    at_most : (xs : List String) → has j (at_most_thousand xs) ≡ true → has j xs ≡ true
    at_most [] k = k
    at_most (x ∷ xs) k = ground arith

    added : has j (add i ids) ≡ true → has j ids ≡ true
    added k = ground (arith, has-append i j ids)

abbrev closing : ActiveSession → ActiveSession
closing s = record s { closing = true }

closing-IsWithin :
    (i : String) (c : Client)
    → IsWithinPolicy c
    → IsWithin c.config c.stopped
        (update (has_session_id i) closing c.sessions)
        (at_most_thousand (add i c.closed_sessions))
        c.commands
unfolding update
closing-IsWithin i c h = record {
  few = rw (length-update (has_session_id i) closing c.sessions) h.few;
  unique =
      update-HasUniqueKeys session_key (has_session_id i) closing c.sessions (λ s. refl) h.unique;
  kept = kept c.sessions h.kept;
  homes = λ going.
      All-map
        (λ r.
          any (has_session_id r.session_id) (update (has_session_id i) closing c.sessions) ≡ true)
        c.commands
        (λ r home.
          rw (any-update session_key (has_session_id i) closing r.session_id c.sessions (λ s. refl))
            home)
        (h.homes going);
}
  where
    one :
        (s : ActiveSession)
        → IsAllowed c.config c.closed_sessions c.commands s
        → IsAllowed c.config
            (at_most_thousand (add i c.closed_sessions))
            c.commands
            (if has_session_id i s then closing s else s)
    one s a = elim (Bool-cases (has_session_id i s)) [
      | inl same ↦ rw same (record {
        organization = a.organization;
        profile = a.profile;
        concurrency = a.concurrency;
        commands_within = a.commands_within;
        closing_if_closed = λ e. refl;
      })
      | inr other ↦ rw other (record {
        organization = a.organization;
        profile = a.profile;
        concurrency = a.concurrency;
        commands_within = a.commands_within;
        closing_if_closed = λ e.
            let apart : i ≢ s.session_id = ground arith in
            a.closing_if_closed (has-closed i s.session_id c.closed_sessions apart e);
      })
    ]

    kept :
        (sessions : List ActiveSession)
        → All (IsAllowed c.config c.closed_sessions c.commands) sessions
        → All
            (IsAllowed c.config (at_most_thousand (add i c.closed_sessions)) c.commands)
            (update (has_session_id i) closing sessions)
    kept [] all = tt
    kept (s ∷ sessions) (a, all) = (one s a, kept sessions all)

pub close_session-IsWithinPolicy :
    (session_id reason : String) (c : Client)
    → IsWithinPolicy c
    → IsWithinPolicy (close_session session_id reason c)
unfolding close_session
close_session-IsWithinPolicy i reason c h =
    elim (Bool-cases (any (is_closing i) c.closing_sessions)) [
      | inl pending ↦ rw (pending, close_session) h
      | inr begins ↦
          rw (begins, close_session)
            (update-IsWithin c.config c.stopped (update (has_session_id i) closing c.sessions)
              (at_most_thousand (add i c.closed_sessions)) (of_session i) cancelled c.commands
              (λ r. refl) (closing-IsWithin i c h))
    ]

any-remove_other :
    (j i : String) (sessions : List ActiveSession)
    → j ≢ i
    → any (has_session_id j) sessions ≡ true
    → any (has_session_id j) (remove (is_ended i) sessions) ≡ true
unfolding any remove
any-remove_other j i [] other h = h
any-remove_other j i (s ∷ sessions) other h = ground (arith, any-remove_other j i sessions other)

settled-IsWithin :
    (i : String) (c : Client)
    → IsWithinPolicy c
    → any (of_session i) c.commands ≡ false
    → IsWithin c.config c.stopped (remove (is_ended i) c.sessions) c.closed_sessions c.commands
unfolding any
settled-IsWithin i c h none_left =
    let fewer = length-remove (is_ended i) c.sessions in
    let few = h.few in
    record {
      few = omega arith;
      unique = remove-HasUniqueKeys session_key (is_ended i) c.sessions h.unique;
      kept =
          All-remove (IsAllowed c.config c.closed_sessions c.commands) (is_ended i) c.sessions
            h.kept;
      homes = λ going. homes c.commands none_left (h.homes going);
    }
  where
    homes :
        (commands : List RunningCommand)
        → any (of_session i) commands ≡ false
        → All (λ r. any (has_session_id r.session_id) c.sessions ≡ true) commands
        → All
            (λ r. any (has_session_id r.session_id) (remove (is_ended i) c.sessions) ≡ true)
            commands
    homes [] none_of all = tt
    homes (r ∷ commands) none_of (home, all) =
        let rest = homes commands (ground arith) all in
        let other : r.session_id ≢ i = ground arith in
        (any-remove_other r.session_id i c.sessions other home, rest)

pub settle_session-IsWithinPolicy :
    (session_id : String) (c : Client)
    → IsWithinPolicy c
    → IsWithinPolicy (settle_session session_id c)
unfolding settle_session
settle_session-IsWithinPolicy i c h = go (find (is_closing i) c.closing_sessions)
  where
    go : (o : Option ClosingSession) → IsWithinPolicy (settle_found o c)
    go none = h
    go (some found) = elim (Bool-cases (any (of_session found.session_id) c.commands)) [
      | inl waits ↦ rw waits h
      | inr ends ↦ rw ends (settled-IsWithin found.session_id c h ends)
    ]
