-- ===== src/Client/Events/Over.antt =====
-- apps/client/src/index.ts, journal.ts: an ended Command, while Sessions open.
use odyshell.Base.{
  ℕ, ◌≡◌, ◌∙◌, refl, inl, inr, Bool, true, false, not, Option, none, some, String, ◌==◌,
  if◌then◌else◌, eqb, find, update, remove, any, any-update, any-remove, Bool-cases,
}
use odyshell.Protocol.Messages.{ClientMessage, session_closed, SessionOpen}
use odyshell.Protocol.Policy.{LocalSessionDecision, allowed, denied}
use odyshell.Client.Journal.{CommandResult, complete}
use odyshell.Client.Journal.Knowledge.{complete-IsKnown}
use odyshell.Client.Deadlines.{adjusted_session_deadline}
use odyshell.Client.Link.{Link, has}
use odyshell.Client.Link.Records.{Records, deliver-Records, send_completion-Records}
use odyshell.Client.Authority.{
  Client, ActiveSession, RunningCommand, has_session_id, has_command_id, tell, open_session,
  open_new, open_until, open_decided, decide_open, seconds_until, send_session_opened, matches,
  open_failed,
}
use odyshell.Client.Commands.{complete_and_send}

-- The journal knows the Command, and it is not running.
pub record IsOver (i : String) (c : Client) : Type 0 where
  pub known : Records i c.link
  pub idle : any (has_command_id i) c.commands ≡ false

module _ (i : String) where
  -- Only what an event does to the Commands and to the journal matters.
  pub over :
      {c : Client} (d : Client)
      → IsOver i c
      → (Records i c.link → Records i d.link)
      → d.commands ≡ c.commands
      → IsOver i d
  over d h kept same = record { known = kept h.known; idle = rw same h.idle }

  pub tell-IsOver : (m : ClientMessage) (c : Client) → IsOver i c → IsOver i (tell m c)
  tell-IsOver m c h = over (tell m c) h (deliver-Records i m c.link) refl

  pub completed-IsOver :
      (id : String) (r : CommandResult) (now : ℕ) (c : Client)
      → IsOver i c
      → IsOver i (complete_and_send id r now c)
  completed-IsOver id r now c h =
      over (complete_and_send id r now c) h
        (λ k.
          send_completion-Records i id r now
            (record c.link { journal = complete id r c.link.journal })
            (complete-IsKnown i id r c.link.journal k))
        refl

  pub updated-IsOver :
      (p : RunningCommand → Bool) (f : RunningCommand → RunningCommand) (c : Client) (l : Link)
      → ((r : RunningCommand) → (f r).command_id ≡ r.command_id)
      → Records i l
      → IsOver i c
      → IsOver i (record c { commands = update p f c.commands; link = l })
  updated-IsOver p f c l same k h = record {
    known = k;
    idle = any-update (λ r. r.command_id) p f i c.commands same ∙ h.idle;
  }

  pub removed-IsOver :
      (p : RunningCommand → Bool) (c : Client)
      → IsOver i c
      → IsOver i (record c { commands = remove p c.commands })
  removed-IsOver p c h = record {
    known = h.known;
    idle = any-remove (λ r. r.command_id) p i c.commands h.idle;
  }

  send_opened-IsOver : (id : String) (c : Client) → IsOver i c → IsOver i (send_session_opened id c)
  unfolding send_session_opened
  send_opened-IsOver id c h = tell-IsOver _ c h

  pub open_session-IsOver :
      (m : SessionOpen) (now : ℕ) (c : Client) → IsOver i c → IsOver i (open_session m now c)
  unfolding open_session
  open_session-IsOver m now c h =
      opened (c.config.session_profile_id == m.client_profile_id)
        (has m.session_id c.closed_sessions)
    where
      decided :
          (deadline seconds : ℕ) (d : LocalSessionDecision)
          → IsOver i (open_decided m deadline seconds d c)
      decided deadline seconds (denied reason) = tell-IsOver _ c h
      decided deadline seconds allowed = elim (Bool-cases (eqb seconds 0)) [
        | inl late ↦ rw late (tell-IsOver _ c h)
        | inr early ↦
            rw early (send_opened-IsOver m.session_id _ (record { known = h.known; idle = h.idle }))
      ]

      until : (o : Option ℕ) → IsOver i (open_until m now o c)
      until none = tell-IsOver _ c h
      until (some deadline) =
          decided deadline (seconds_until deadline now)
            (decide_open c m (seconds_until deadline now))

      found : (o : Option ActiveSession) → IsOver i (open_new m now o c)
      found none = until (adjusted_session_deadline m.expires_at (some m.server_time) now)
      found (some s) = elim (Bool-cases (matches m s)) [
        | inl same ↦ rw same (send_opened-IsOver m.session_id c h)
        | inr other ↦ rw other (tell-IsOver _ c h)
      ]

      opened :
          (mine closed : Bool)
          → IsOver i (
              if not mine
              then open_failed m "Session Client Profile is not configured locally" c
              else if closed
              then tell (session_closed m.session_id "already_closed") c
              else open_new m now (find (has_session_id m.session_id) c.sessions) c)
      opened false closed = tell-IsOver _ c h
      opened true true = tell-IsOver _ c h
      opened true false = found (find (has_session_id m.session_id) c.sessions)
