-- ===== src/Server/Service/CommandRequests/Clearing.antt =====
-- apps/server/src/sessions.ts: exactly when a Command is cleared.
use odyshell.Base.{
  ℕ, ◌<◌, Option, none, some, String, ◌≡◌, ◌↔◌, refl, arith, ◌==◌, inl, inr, Bool-cases,
}
use odyshell.Protocol.Session.{Session, CommandRequest}
use odyshell.Protocol.Decision.{CommandDecision, allowed, command_decision}
use odyshell.Server.Store.{Store, MachineAuthority}
use odyshell.Server.Store.Authorities.{machine_authority}
use odyshell.Server.Store.Sessions.{session}
use odyshell.Server.Store.Commands.{count_active_commands}
use odyshell.Server.Service.Principal.{AgentPrincipal}
use odyshell.Server.Service.CommandRequests.{
  clearance, cleared, clear_machine, clear_session, clear_decided,
}

-- What clears a Command in the Session `s`.
abbrev pub Clears :
    Store → AgentPrincipal → CommandRequest → ℕ → Option Session → Session → ℕ → Type 0
Clears st principal request now found s timeout =
    (found ≡ some s)
    × (s.agent_id ≡ principal.agent_id)
    × (count_active_commands st principal.organization_id s.id < s.max_concurrent_commands)
    × ((machine : MachineAuthority) × (machine_authority st principal.organization_id s.machine_id
          ≡ some machine)
        × (command_decision s request machine.local_policy now ≡ allowed timeout))

clear_decided-eq-cleared :
    (s t : Session) (active_commands timeout : ℕ) (d : CommandDecision)
    → (clear_decided s active_commands d ≡ cleared t timeout)
      ↔ ((s ≡ t) × (active_commands < s.max_concurrent_commands) × (d ≡ allowed timeout))
clear_decided-eq-cleared s t active_commands timeout d = ground arith

clear_machine-eq-cleared :
    (s t : Session) (request : CommandRequest) (active_commands now timeout : ℕ)
    (found : Option MachineAuthority)
    → (clear_machine s request active_commands now found ≡ cleared t timeout) ↔ (
        (s ≡ t)
        × (active_commands < s.max_concurrent_commands)
        × ((machine : MachineAuthority) × (found ≡ some machine)
            × (command_decision s request machine.local_policy now ≡ allowed timeout)))
unfolding clear_machine
clear_machine-eq-cleared s t request active_commands now timeout none =
    ((λ e. cc), (λ k. let (same, room, (machine, at_m, d)) = k in cc))
clear_machine-eq-cleared s t request active_commands now timeout (some machine) =
    let h =
      clear_decided-eq-cleared s t active_commands timeout
        (command_decision s request machine.local_policy now) in
    (
      (λ e. let (same, room, d) = h.0 e in (same, room, (machine, refl, d))),
      (λ k.
          let (same, room, (m, at_m, d)) = k in
          let one : m ≡ machine = ground arith in h.1 (same, room, rw (← one) d)),
    )

clear_session-eq-cleared :
    (st : Store) (principal : AgentPrincipal) (request : CommandRequest) (now : ℕ)
    (found : Option Session) (t : Session) (timeout : ℕ)
    → (clear_session st principal request now found ≡ cleared t timeout)
      ↔ Clears st principal request now found t timeout
unfolding clear_session
clear_session-eq-cleared st principal request now none t timeout =
    ((λ e. cc), (λ k. let (at_s, own, room, held) = k in cc))
clear_session-eq-cleared st principal request now (some s) t timeout =
    let h =
      clear_machine-eq-cleared s t request (count_active_commands st principal.organization_id s.id)
        now timeout (machine_authority st principal.organization_id s.machine_id) in
    elim (Bool-cases (s.agent_id == principal.agent_id)) [
      | inl own ↦
          rw (own, clear_session)
            (
              (λ e. let (same, room, held) = h.0 e in rw (← same) (refl, ground arith, room, held)),
              (λ k.
                  let (at_s, own', room, held) = k in
                  let same : s ≡ t = ground arith in h.1 (same, rw same room, rw same held)),
            )
      | inr other ↦ ground arith
    ]

-- A Command is cleared exactly when the Session is the Agent's in its Organization and has fewer
-- active Commands than it was granted, its Machine is known, and the Command is allowed by
-- `commandDecision` under the Machine's Local Policy, which also gives the timeout.
pub clearance-eq-cleared :
    (st : Store) (principal : AgentPrincipal) (session_id : String) (request : CommandRequest)
    (now : ℕ) (s : Session) (timeout : ℕ)
    → (clearance principal session_id request now st ≡ cleared s timeout)
      ↔ Clears st principal request now (session st principal.organization_id session_id) s timeout
unfolding clearance
clearance-eq-cleared st principal session_id request now s timeout =
    clear_session-eq-cleared st principal request now
      (session st principal.organization_id session_id) s timeout
