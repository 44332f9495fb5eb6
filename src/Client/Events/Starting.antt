-- ===== src/Client/Events/Starting.antt =====
-- apps/client/src/index.ts: `startCommand` keeps to Local Policy.
use odyshell.Base.{
  ℕ, suc, ◌<◌, ◌≡◌, ◌∙◌, refl, sym, inl, inr, true, ◌||◌, Option, none, some, List, [], ◌∷◌, String,
  ◌==◌, if◌then◌else◌, ltb, leb, eqb, min, find, find-test, any-find, select, any, arith, All,
  All-find_unique, Bool-cases,
}
use odyshell.Protocol.Messages.{CommandStart}
use odyshell.Client.Journal.{Row, Reception, receive, result, CommandResult}
use odyshell.Client.Deadlines.{command_timeout_milliseconds}
use odyshell.Client.Authority.{Client, ActiveSession, RunningCommand, has_session_id, of_session}
use odyshell.Client.Commands.{
  new_command, send_previous, start_in, start_found, start_received, start_command, fail_command,
}
use odyshell.Client.Events.Policy.{session_key, running_in, IsAllowed, IsWithin, IsWithinPolicy}

running_in-cons :
    (r : RunningCommand) (i : String) (commands : List RunningCommand)
    → running_in i (r ∷ commands)
      ≡ (if of_session i r then suc (running_in i commands) else running_in i commands)
unfolding select
running_in-cons r i commands = ground arith

-- A Command that starts in a Session with room for it.
begin-IsWithin :
    (r : RunningCommand) (session : ActiveSession) (c : Client)
    → find (has_session_id r.session_id) c.sessions ≡ some session
    → running_in r.session_id c.commands < session.max_concurrent_commands
    → IsWithinPolicy c
    → IsWithin c.config c.stopped c.sessions c.closed_sessions (r ∷ c.commands)
begin-IsWithin r session c found room h = record {
  few = h.few;
  unique = h.unique;
  kept =
      kept c.sessions h.kept (
        All-find_unique session_key (has_session_id r.session_id) c.sessions session h.unique
          found);
  homes = λ going. (home, h.homes going);
}
  where
    home : any (has_session_id r.session_id) c.sessions ≡ true
    home = elim (Bool-cases (any (has_session_id r.session_id) c.sessions)) [
      | inl there ↦ there
      | inr missing ↦
          let none_found = any-find (has_session_id r.session_id) c.sessions missing in cc
    ]

    named : session.session_id ≡ r.session_id
    named =
        let same = find-test (has_session_id r.session_id) c.sessions session found in ground arith

    one :
        (s : ActiveSession)
        → IsAllowed c.config c.closed_sessions c.commands s
        → (s.session_id ≡ session.session_id → s ≡ session)
        → IsAllowed c.config c.closed_sessions (r ∷ c.commands) s
    one s a same =
        let more = running_in-cons r s.session_id c.commands in
        let within = a.commands_within in
        record {
          organization = a.organization;
          profile = a.profile;
          concurrency = a.concurrency;
          commands_within = elim (Bool-cases (r.session_id == s.session_id)) [
            | inr other ↦ ground arith
            | inl here ↦
                let at_s : r.session_id ≡ s.session_id = ground arith in
                let this : s ≡ session = same (sym at_s ∙ sym named) in
                let limit : s.max_concurrent_commands ≡ session.max_concurrent_commands =
                  rw this refl in
                let room' = rw at_s at room in ground arith
          ];
          closing_if_closed = a.closing_if_closed;
        }

    kept :
        (sessions : List ActiveSession)
        → All (IsAllowed c.config c.closed_sessions c.commands) sessions
        → All (λ s. s.session_id ≡ session.session_id → s ≡ session) sessions
        → All (IsAllowed c.config c.closed_sessions (r ∷ c.commands)) sessions
    kept [] all same = tt
    kept (s ∷ sessions) (a, all) (k, same) = (one s a k, kept sessions all same)

pub start_command-IsWithinPolicy :
    (message : CommandStart) (now : ℕ) (c : Client)
    → IsWithinPolicy c
    → IsWithinPolicy (start_command message now c)
unfolding start_command fail_command
start_command-IsWithinPolicy message now c h =
    received (receive message.command_id c.link.journal).0
      (receive message.command_id c.link.journal).1
  where
    started :
        (session : ActiveSession) (c : Client)
        → IsWithinPolicy c
        → find (has_session_id message.session_id) c.sessions ≡ some session
        → IsWithinPolicy (start_in message now session c)
    started session c h found =
        let maximum = min message.max_output_bytes c.config.local_policy.max_command_output_bytes in
        let timeout =
          command_timeout_milliseconds message.timeout_seconds
            c.config.local_policy.max_command_timeout_seconds session.expires_at now in
        elim (Bool-cases (session.closing || leb session.expires_at now)) [
          | inl over ↦ rw over h
          | inr going ↦
              elim (Bool-cases
                (leb session.max_concurrent_commands (running_in message.session_id c.commands))) [
                  | inl full ↦ rw (going, full) h
                  | inr room ↦ elim (Bool-cases (ltb maximum 1 || eqb timeout 0)) [
                    | inl outside ↦ rw (going, room, outside) h
                    | inr inside ↦
                        rw (going, room, inside)
                          (begin-IsWithin (new_command message maximum timeout) session c found
                            (ground arith) h)
                  ]
                ]
        ]

    known :
        (o : Option ActiveSession) (c : Client)
        → IsWithinPolicy c
        → find (has_session_id message.session_id) c.sessions ≡ o
        → IsWithinPolicy (start_found message now o c)
    known none c h e = h
    known (some session) c h e = started session c h e

    previous :
        (o : Option CommandResult) (c : Client)
        → IsWithinPolicy c
        → IsWithinPolicy (send_previous message.command_id now o c)
    previous none c h = h
    previous (some r) c h = h

    received :
        (rows : List Row) (reception : Reception)
        → IsWithinPolicy (
            start_received message now reception
              (record c { link = record c.link { journal = rows } }))
    received rows Reception.completed =
        previous (result message.command_id rows)
          (record c { link = record c.link { journal = rows } }) h
    received rows Reception.running = h
    received rows Reception.new =
        known (find (has_session_id message.session_id) c.sessions)
          (record c { link = record c.link { journal = rows } }) h refl
