-- ===== src/Client/Events/Begun.antt =====
-- apps/client/src/index.ts, journal.ts: an ended Command, while Sessions close and other Commands begin.
use odyshell.Base.{
  ℕ, ◌≡◌, ◌≢◌, ◌∙◌, refl, inl, inr, Bool, true, false, ◌||◌, Option, none, some, String,
  if◌then◌else◌, ltb, leb, eqb, min, find, select, any, any-update, length, arith, Bool-cases,
}
use odyshell.Protocol.Messages.{CommandStart, session_closed, command_started}
use odyshell.Client.Journal.{Reception, receive, CommandResult, mark_running}
use odyshell.Client.Journal.Knowledge.{mark_running-IsKnown, receive-IsKnown, receive_known}
use odyshell.Client.Deadlines.{command_timeout_milliseconds}
use odyshell.Client.Link.Records.{deliver-Records, send_completion-Records}
use odyshell.Client.Authority.{
  Client, ActiveSession, ClosingSession, has_session_id, of_session, cancelled, close_session,
  settle_session, settle_found, is_closing,
}
use odyshell.Client.Commands.{
  send_previous, begin_command, start_in, start_found, start_received, start_command, fail_command,
}
use odyshell.Client.Events.Over.{IsOver, completed-IsOver}

module _ (i : String) where
  pub close_session-IsOver :
      (id reason : String) (c : Client) → IsOver i c → IsOver i (close_session id reason c)
  unfolding close_session
  close_session-IsOver id reason c h = elim (Bool-cases (any (is_closing id) c.closing_sessions)) [
    | inl pending ↦ rw (pending, close_session) h
    | inr begins ↦
        rw (begins, close_session)
          (record {
            known = h.known;
            idle =
                any-update (λ r. r.command_id) (of_session id) cancelled i c.commands (λ r. refl)
                ∙ h.idle;
          })
  ]

  pub settle_session-IsOver :
      (id : String) (c : Client) → IsOver i c → IsOver i (settle_session id c)
  unfolding settle_session
  settle_session-IsOver id c h = go (find (is_closing id) c.closing_sessions)
    where
      go : (o : Option ClosingSession) → IsOver i (settle_found o c)
      go none = h
      go (some closing) = elim (Bool-cases (any (of_session closing.session_id) c.commands)) [
        | inl waits ↦ rw waits h
        | inr ends ↦ rw ends (record {
          known =
              deliver-Records i (session_closed closing.session_id closing.reason) c.link h.known;
          idle = h.idle;
        })
      ]

  fail_command-IsOver :
      (id error : String) (now : ℕ) (c : Client)
      → IsOver i c
      → IsOver i (fail_command id error now c)
  unfolding fail_command
  fail_command-IsOver id error now c h = completed-IsOver i id _ now c h

  pub send_previous-IsOver :
      (id : String) (now : ℕ) (o : Option CommandResult) (c : Client)
      → IsOver i c
      → IsOver i (send_previous id now o c)
  send_previous-IsOver id now none c h = h
  send_previous-IsOver id now (some r) c h = record {
    known = send_completion-Records i id r now c.link h.known;
    idle = h.idle;
  }

  -- Another Command may begin.
  begin_command-IsOver :
      (m : CommandStart) (maximum timeout now : ℕ) (c : Client)
      → m.command_id ≢ i
      → IsOver i c
      → IsOver i (begin_command m maximum timeout now c)
  unfolding any
  begin_command-IsOver m maximum timeout now c other h =
      let idle = h.idle in
      record {
        known =
            deliver-Records i (command_started m.command_id now)
              (record c.link { journal = mark_running m.command_id c.link.journal })
              (mark_running-IsKnown i m.command_id c.link.journal h.known);
        idle = ground arith;
      }

  start_in-IsOver :
      (m : CommandStart) (now : ℕ) (session : ActiveSession) (c : Client)
      → m.command_id ≢ i
      → IsOver i c
      → IsOver i (start_in m now session c)
  start_in-IsOver m now session c other h =
      go (session.closing || leb session.expires_at now)
        (leb session.max_concurrent_commands (length (select (of_session m.session_id) c.commands)))
        (ltb maximum 1 || eqb timeout 0)
    where
      maximum : ℕ
      maximum = min m.max_output_bytes c.config.local_policy.max_command_output_bytes

      timeout : ℕ
      timeout =
          command_timeout_milliseconds m.timeout_seconds
            c.config.local_policy.max_command_timeout_seconds session.expires_at now

      go :
          (over full outside : Bool)
          → IsOver i (
              if over
              then fail_command m.command_id "Session is not active on this Client" now c
              else if full
              then fail_command m.command_id "Local concurrent Command limit reached" now c
              else if outside
              then fail_command m.command_id "Command exceeds Local Policy or Session expiry" now c
              else begin_command m
                  (min m.max_output_bytes c.config.local_policy.max_command_output_bytes)
                  (command_timeout_milliseconds m.timeout_seconds
                    c.config.local_policy.max_command_timeout_seconds session.expires_at now)
                  now
                  c)
      go true full outside = fail_command-IsOver m.command_id _ now c h
      go false true outside = fail_command-IsOver m.command_id _ now c h
      go false false true = fail_command-IsOver m.command_id _ now c h
      go false false false = begin_command-IsOver m _ _ now c other h

  pub start_command-IsOver :
      (m : CommandStart) (now : ℕ) (c : Client) → IsOver i c → IsOver i (start_command m now c)
  unfolding start_command
  start_command-IsOver m now c h = received (receive m.command_id c.link.journal).1 refl
    where
      later :
          IsOver i (record c {
            link = record c.link { journal = (receive m.command_id c.link.journal).0 };
          })
      later = record {
        known = receive-IsKnown i m.command_id c.link.journal h.known;
        idle = h.idle;
      }

      found :
          (o : Option ActiveSession)
          → m.command_id ≢ i
          → IsOver i (
              start_found m now o (record c {
                link = record c.link { journal = (receive m.command_id c.link.journal).0 };
              }))
      found none other = fail_command-IsOver m.command_id _ now _ later
      found (some session) other = start_in-IsOver m now session _ other later

      received :
          (r : Reception)
          → (receive m.command_id c.link.journal).1 ≡ r
          → IsOver i (
              start_received m now r (record c {
                link = record c.link { journal = (receive m.command_id c.link.journal).0 };
              }))
      received Reception.completed e = send_previous-IsOver m.command_id now _ _ later
      received Reception.running e = later
      received Reception.new e =
          found (find (has_session_id m.session_id) c.sessions)
            (λ same. receive_known m.command_id c.link.journal (rw same h.known) e)
