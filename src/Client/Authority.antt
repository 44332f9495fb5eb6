-- ===== src/Client/Authority.antt =====
-- apps/client/src/index.ts: the Sessions and Commands of the class `Client`. A method is split where it
-- waits: `closeSession` begins here and is settled when the Session's Commands have ended, and
-- `startCommand` goes up to the call of the executor, whose output and end are events. What a running
-- Command's closure keeps stands in its record. A step reads the clock once.
use odyshell.Base.{
  ℕ, ◌+◌, ◌-◌, ◌/◌, Bool, true, false, not, ◌&&◌, Option, none, some, List, [], ◌∷◌, String, ◌==◌,
  if◌then◌else◌, ltb, eqb, any, find, update, remove, length,
}
use odyshell.Protocol.Policy.{
  LocalPolicy, LocalSessionDecision, allowed, denied, local_session_decision,
}
use odyshell.Protocol.Messages.{
  SessionOpen, ClientMessage, session_opened, session_open_failed, session_closed,
}
use odyshell.Client.Link.{Link, has, add, deliver}
use odyshell.Client.Deadlines.{adjusted_session_deadline}

pub record ClientConfig : Type 0 where
  pub session_profile_id : String
  pub operating_system_user : String
  pub local_policy : LocalPolicy

pub record ActiveSession : Type 0 where
  pub session_id : String
  pub organization_id : String
  pub agent_id : String
  pub client_profile_id : String
  pub contract_expires_at : ℕ
  pub expires_at : ℕ
  pub max_concurrent_commands : ℕ
  pub closing : Bool

pub record RunningCommand : Type 0 where
  pub command_id : String
  pub session_id : String
  pub cancel_requested : Bool
  pub timed_out : Bool
  pub maximum_output_bytes : ℕ
  pub timeout_milliseconds : ℕ
  pub sequence : ℕ
  pub output_bytes : ℕ
  pub output_truncated : Bool

pub record ClosingSession : Type 0 where
  pub session_id : String
  pub reason : String

pub record Client : Type 0 where
  pub config : ClientConfig
  pub stopped : Bool
  -- The quarantine file exists in the state directory.
  pub quarantined : Bool
  pub sessions : List ActiveSession
  pub closed_sessions : List String
  pub closing_sessions : List ClosingSession
  pub commands : List RunningCommand
  pub link : Link

abbrev pub has_session_id : String → ActiveSession → Bool
has_session_id i s = s.session_id == i

abbrev pub is_closing : String → ClosingSession → Bool
is_closing i s = s.session_id == i

abbrev pub has_command_id : String → RunningCommand → Bool
has_command_id i r = r.command_id == i

abbrev pub of_session : String → RunningCommand → Bool
of_session i r = r.session_id == i

abbrev pub tell : ClientMessage → Client → Client
tell message c = record c { link = (deliver message c.link).0 }

abbrev pub cancelled : RunningCommand → RunningCommand
cancelled r = record r { cancel_requested = true }

abbrev pub at_most_thousand : List String → List String
at_most_thousand [] = []
at_most_thousand (oldest ∷ ids) = if ltb 1000 (length (oldest ∷ ids)) then ids else oldest ∷ ids

-- `closeSession`, up to the wait for the Session's Commands.
unfoldable pub close_session : (session_id reason : String) → Client → Client
close_session session_id reason c =
    if any (is_closing session_id) c.closing_sessions then c else record c {
      closed_sessions = at_most_thousand (add session_id c.closed_sessions);
      sessions = update (has_session_id session_id) (λ s. record s { closing = true }) c.sessions;
      commands = update (of_session session_id) cancelled c.commands;
      closing_sessions = record { session_id = session_id; reason = reason } ∷ c.closing_sessions;
    }

-- The Session that the close began with: one opened under its id since then is not closing.
abbrev pub is_ended : String → ActiveSession → Bool
is_ended i s = has_session_id i s && s.closing

abbrev pub settled : ClosingSession → Client → Client
settled closing c = record c {
  link = (deliver (session_closed closing.session_id closing.reason) c.link).0;
  sessions = remove (is_ended closing.session_id) c.sessions;
  closing_sessions = remove (is_closing closing.session_id) c.closing_sessions;
}

abbrev pub settle_found : Option ClosingSession → Client → Client
settle_found none c = c
settle_found (some closing) c =
    if any (of_session closing.session_id) c.commands then c else settled closing c

-- The rest of `closeSession`, once the Session's Commands have ended. That their termination fails is
-- left out.
unfoldable pub settle_session : String → Client → Client
settle_session session_id c = settle_found (find (is_closing session_id) c.closing_sessions) c

abbrev pub open_failed : SessionOpen → String → Client → Client
open_failed message error c = tell (session_open_failed message.session_id error) c

unfoldable pub send_session_opened : String → Client → Client
send_session_opened session_id c =
    tell (session_opened session_id c.config.session_profile_id c.config.operating_system_user) c

abbrev pub matches : SessionOpen → ActiveSession → Bool
matches message s =
    not s.closing
    && (s.organization_id == message.organization_id)
    && (s.agent_id == message.agent_id)
    && (s.client_profile_id == message.client_profile_id)
    && eqb s.contract_expires_at message.expires_at
    && eqb s.max_concurrent_commands message.max_concurrent_commands

abbrev pub new_session : SessionOpen → ℕ → ActiveSession
new_session message deadline = record {
  session_id = message.session_id;
  organization_id = message.organization_id;
  agent_id = message.agent_id;
  client_profile_id = message.client_profile_id;
  contract_expires_at = message.expires_at;
  expires_at = deadline;
  max_concurrent_commands = message.max_concurrent_commands;
  closing = false;
}

abbrev pub seconds_until : ℕ → ℕ → ℕ
seconds_until deadline now = (deadline - now + 999) / 1000

abbrev pub decide_open : Client → SessionOpen → ℕ → LocalSessionDecision
decide_open c message seconds = local_session_decision c.config.local_policy (record {
  organization_id = message.organization_id;
  duration_seconds = seconds;
  active_sessions = length c.sessions;
  max_concurrent_commands = message.max_concurrent_commands;
})

abbrev pub open_decided : SessionOpen → ℕ → ℕ → LocalSessionDecision → Client → Client
open_decided message deadline seconds (denied reason) c =
    open_failed message "Session violates Local Policy" c
open_decided message deadline seconds allowed c =
    if eqb seconds 0
    then open_failed message "Session expired before local authority opened" c
    else send_session_opened message.session_id
        (record c { sessions = new_session message deadline ∷ c.sessions })

abbrev pub open_until : SessionOpen → (now : ℕ) → Option ℕ → Client → Client
open_until message now none c =
    open_failed message "Client clock is outside the allowed Session skew" c
open_until message now (some deadline) c =
    let seconds = seconds_until deadline now in
    open_decided message deadline seconds (decide_open c message seconds) c

abbrev pub open_new : SessionOpen → (now : ℕ) → Option ActiveSession → Client → Client
open_new message now (some existing) c =
    if matches message existing
    then send_session_opened message.session_id c
    else open_failed message "Session retry does not match active local authority" c
open_new message now none c =
    open_until message now
      (adjusted_session_deadline message.expires_at (some message.server_time) now) c

-- The denial's code is left out of the error's text. That the Session is closed while it opens cannot be:
-- nothing runs between the two tests.
unfoldable pub open_session : SessionOpen → (now : ℕ) → Client → Client
open_session message now c =
    if not (c.config.session_profile_id == message.client_profile_id)
    then open_failed message "Session Client Profile is not configured locally" c
    else if has message.session_id c.closed_sessions
    then tell (session_closed message.session_id "already_closed") c
    else open_new message now (find (has_session_id message.session_id) c.sessions) c
