-- ===== src/Server/System/Transitions.antt =====
-- The Server's steps seen from its database: a relation between the database before a step and after
-- it, whatever the step returns, sends or throws.
use odyshell.Base.{
  ℕ, Bool, true, false, Option, some, List, String, ◌≡◌, ◌&&◌, arith, refl, inl, inr, any, ◌==◌,
  Option-cases,
}
use odyshell.Protocol.Session.{SessionRequest, CommandRequest, Session}
use odyshell.Protocol.Messages.{ClientMessage}
use odyshell.Server.Store.{Store, MachineAuthority}
use odyshell.Server.Store.Authorities.{machine_authority, put_machine_authority, set_machine_online}
use odyshell.Server.Store.Sessions.{
  Decision, is_approve, decide_session, session_insert, session_clash, count_active_sessions,
}
use odyshell.Server.Store.Commands.{request_command_cancellation, command_insert, command_clash}
use odyshell.Server.Store.Endings
use odyshell.Server.Store.Endings.{Outcome, expire_sessions, revoke_sessions}
use odyshell.Server.Store.Reports.{purge_expired_command_output}
use odyshell.Server.Service.World.{World}
use odyshell.Server.Service.Client.{SessionClient}
use odyshell.Server.Service.Principal.{AgentPrincipal, Digest, is_operator}
use odyshell.Server.Service.SessionRequests.{admission, admitted}
use odyshell.Server.Service.SessionRequests.Effects.{
  creation as session_creation, request_session_rule, with_session,
}
use odyshell.Server.Service.CommandRequests.{clearance, cleared}
use odyshell.Server.Service.CommandRequests.Effects.{
  creation as command_creation, create_command_rule, with_command,
}
use odyshell.Server.Service.Supervision.{SupervisorPrincipal}
use odyshell.Server.Service.Supervision.Effects.{
  audited, supervise_session_rule, finish_session_rule, cancel_command_rule,
}
use odyshell.Server.System.Hooks.{MachineContext, machine_disconnected}
use odyshell.Server.System.Hooks.Effects.{
  report, machine_message_rule, close_sessions_rule, sweep_rule, machine_authenticated_rule,
}
use odyshell.Server.System.Steps.{
  Action, requests, creates, supervises, finishes, cancels, reports, authenticates, disconnects,
  sweeps, revokes, purges, audits, revoke, step,
}

-- What a step may do: create a Command, and let a Session run.
pub record Cause : Type 0 where
  pub creates_command : Bool
  pub lets_run : String → Bool

abbrev pub creates_command : Action → Bool
creates_command (creates _ _ _ _ _ _ _) = true
creates_command _ = false

-- The steps that let a Session run: the request of an operator, and the approval of a Human.
abbrev pub lets_run : String → Action → Bool
lets_run i (requests p r key fresh now) = is_operator p.agent_role && fresh == i
lets_run i (supervises p s d now) = is_approve d && s == i
lets_run i _ = false

abbrev pub cause_of : Action → Cause
cause_of a = record { creates_command = creates_command a; lets_run = λ i. lets_run i a }

module _ (client : SessionClient) (digest : Digest) (slice : String → String) where
  -- Only a step that may create a Command adds one, and only one that lets a Session run adds it as an
  -- operator's or approves it.
  pub data Transition (cause : Cause) (st : Store) : Store → Type 0 where
    unchanged : Transition cause st st
    session_added :
        (principal : AgentPrincipal) (request : SessionRequest) (key fresh : String) (now : ℕ)
        (machine : MachineAuthority)
        → (is_operator principal.agent_role ≡ true → cause.lets_run fresh ≡ true)
        → (admission principal request
              (count_active_sessions st principal.organization_id request.machine_id)
              (machine_authority st principal.organization_id request.machine_id)
            ≡ admitted machine)
        → (any
              (session_clash (
                session_insert (
                  session_creation client digest principal request
                    (digest.hash key)
                    fresh
                    now
                    machine)))
              st.sessions
            ≡ false)
        → Transition cause st (
            with_session client digest principal request
              (session_creation client digest principal request (digest.hash key) fresh now machine)
              st)
    command_added :
        cause.creates_command ≡ true
        → (principal : AgentPrincipal) (session_id : String) (request : CommandRequest)
          (key fresh : String) (decided_at now : ℕ) (s : Session) (timeout : ℕ)
        → (clearance principal session_id request decided_at st ≡ cleared s timeout)
        → (any
              (command_clash (
                command_insert (
                  command_creation client digest principal session_id request
                    (digest.hash key)
                    fresh
                    now
                    s
                    timeout)))
              st.commands
            ≡ false)
        → any (λ r. r.id == s.id) st.sessions ≡ true
        → Transition cause st (
            with_command
              (command_creation client digest principal session_id request
                (digest.hash key)
                fresh
                now
                s
                timeout)
              st)
    supervised :
        (principal : SupervisorPrincipal) (session_id : String) (decision : Decision) (now : ℕ)
        → (is_approve decision ≡ true → cause.lets_run session_id ≡ true)
        → Transition cause st (
            audited principal decision
              (decide_session principal.organization_id session_id decision now st).1
              (decide_session principal.organization_id session_id decision now st).0)
    finished :
        (organization_id agent_id session_id : String) (outcome : Outcome) (now : ℕ)
        → Transition cause st
            (Endings.finish_session organization_id agent_id session_id outcome now st).0
    command_cancelled :
        (organization_id agent_id command_id : String)
        → Transition cause st
            (request_command_cancellation organization_id agent_id command_id st).0
    reported :
        (m : MachineContext) (msg : ClientMessage) (now : ℕ)
        → Transition cause st (report slice m msg now st)
    machine_stored :
        (authority : MachineAuthority)
        → authority.organization_id ≡ authority.local_policy.organization_id
        → Transition cause st (put_machine_authority authority st)
    machine_offline :
        (organization_id machine_id : String)
        → Transition cause st (set_machine_online organization_id machine_id false st).0
    swept : (now : ℕ) → Transition cause st (expire_sessions now st).0
    sessions_revoked :
        (organization_id : String) (agent_id machine_id : Option String) (now : ℕ) (later : Store)
        (ended : List (Session × List String))
        → revoke_sessions organization_id agent_id machine_id now st ≡ some (later, ended)
        → Transition cause st later
    audit_switched : (works : Bool) → Transition cause st (record st { audit_open = works })
    output_purged : (now : ℕ) → Transition cause st (purge_expired_command_output now st).0

module _ (client : SessionClient) (digest : Digest) (connected : String → Bool)
    (slice : String → String) where
  abbrev Into : Action → World → Store → Type 0
  Into a w = Transition client digest slice (cause_of a) w.store

  revoke-Transition :
      (organization_id : String) (agent_id machine_id : Option String) (reason : String) (now : ℕ)
      (w : World)
      → Transition client digest slice
          (cause_of (revokes organization_id agent_id machine_id reason now))
          w.store
          (revoke client digest connected slice organization_id agent_id machine_id reason now
            w).store
  unfolding revoke
  revoke-Transition organization_id agent_id machine_id reason now w =
      elim (Option-cases (revoke_sessions organization_id agent_id machine_id now w.store)) [
        | inl e ↦ rw (e, revoke) unchanged
        | inr ((st, ended), e) ↦
            rw (e, revoke)
              (close_sessions_rule
                (Transition client digest slice
                  (cause_of (revokes organization_id agent_id machine_id reason now)) w.store)
                connected slice reason ended (record w { store = st })
                (sessions_revoked organization_id agent_id machine_id now st ended e))
      ]

  -- Every step of the Server is one of the transitions.
  pub step-Transition :
      (a : Action) (w : World) → Into a w (step client digest connected slice a w).store
  unfolding step machine_disconnected
  step-Transition (requests p r key fresh now) w =
      request_session_rule (Into (requests p r key fresh now) w) client digest p r key fresh now w
        unchanged
        (λ machine allowed new.
          session_added p r key fresh now machine (λ e. ground arith) allowed new)
  step-Transition (creates p s r key fresh at now) w =
      create_command_rule (Into (creates p s r key fresh at now) w) client digest p s r key fresh at
        now w unchanged
        (λ s' timeout clear new held.
          command_added refl p s r key fresh at now s' timeout clear new held)
  step-Transition (supervises p s d now) w =
      supervise_session_rule (Into (supervises p s d now) w) client p s d now w
        (supervised p s d now (λ e. ground arith))
  step-Transition (finishes p s o now) w =
      finish_session_rule (Into (finishes p s o now) w) client p s o now w
        (finished p.organization_id p.agent_id s o now)
  step-Transition (cancels p c) w =
      cancel_command_rule (Into (cancels p c) w) client p c w
        (command_cancelled p.organization_id p.agent_id c)
  step-Transition (reports m msg now) w =
      machine_message_rule (Into (reports m msg now) w) connected slice m msg now w
        (reported m msg now)
  step-Transition (authenticates owner m p u policy) w =
      machine_authenticated_rule (Into (authenticates owner m p u policy) w) owner m p u policy w
        unchanged (λ authority same. machine_stored authority same)
  step-Transition (disconnects m o) w = machine_offline o m
  step-Transition (sweeps now) w =
      sweep_rule (Into (sweeps now) w) connected slice now w (swept now)
  step-Transition (revokes o a m reason now) w = revoke-Transition o a m reason now w
  step-Transition (audits works) w = audit_switched works
  step-Transition (purges now) w = output_purged now
