-- ===== src/Server/System/Hooks/Effects.antt =====
-- What the hooks leave in the database.
use odyshell.Base.{
  ℕ, Bool, true, false, Option, none, some, List, [], ◌∷◌, String, ◌≡◌, refl, inl, inr, Bool-cases,
  ◌==◌,
}
use odyshell.Protocol.Session.{Session, Command}
use odyshell.Protocol.Policy.{LocalPolicy}
use odyshell.Protocol.Messages.{
  ClientMessage, session_opened, session_open_failed, session_closed, command_started,
  command_output, command_completed, session_close, command_cancel, command_acknowledged,
}
use odyshell.Server.Store.{Store, MachineAuthority}
use odyshell.Server.Store.Authorities.{put_machine_authority}
use odyshell.Server.Store.Reports.{
  mark_session_opened, mark_session_failed, mark_session_closed, mark_command_started,
  add_command_output, mark_command_completed,
}
use odyshell.Server.Store.Endings.{expire_sessions}
use odyshell.Server.Store.Reconnect.{present}
use odyshell.Server.Service.World.{World, ◌>>◌, after_rule}
use odyshell.Server.Service.Client.{send_anyway, send_anyway-KeepsStore}
use odyshell.Server.System.Hooks.{
  MachineContext, accept_output, acknowledge, machine_message, send_cancels, close_sessions, sweep,
  machine_authenticated,
}

module _ (slice : String → String) where
  -- The database's step for a Machine's message.
  abbrev pub report : MachineContext → ClientMessage → ℕ → Store → Store
  report m (session_opened session_id profile user) now st =
      (mark_session_opened
        (record {
          organization_id = m.organization_id;
          machine_id = m.machine_id;
          session_id = session_id;
          client_profile_id = profile;
          operating_system_user = user;
        })
        now st).0
  report m (session_open_failed session_id error) now st =
      (mark_session_failed slice m.organization_id m.machine_id session_id error now st).0
  report m (session_closed session_id reason) now st =
      (mark_session_closed m.organization_id m.machine_id session_id reason now st).0
  report m (command_started command_id at) now st =
      (mark_command_started m.organization_id m.machine_id command_id at st).0
  report m (command_output command_id sequence stream bytes) now st =
      (add_command_output
        (record {
          organization_id = m.organization_id;
          machine_id = m.machine_id;
          command_id = command_id;
          stream = stream;
          sequence = sequence;
          bytes = bytes;
        })
        now st).0
  report m (command_completed r) now st =
      (mark_command_completed slice m.organization_id m.machine_id
        (record r { error = present r.error }) st).0

module _ {ℓ} (P : Store → Type ℓ) (connected : String → Bool) (slice : String → String) where
  accept_output_rule :
      (b : Bool) (w : World) → P w.store → P (accept_output connected slice b w).0.store
  unfolding accept_output
  accept_output_rule true w h = h
  accept_output_rule false w h = h

  acknowledge_rule :
      (machine_id : String) (o : Option Command) (w : World)
      → P w.store
      → P (acknowledge connected slice machine_id o w).0.store
  unfolding acknowledge
  acknowledge_rule machine_id none w h = h
  acknowledge_rule machine_id (some c) w h =
      rw (send_anyway-KeepsStore connected machine_id (command_acknowledged c.id) w) h

  pub machine_message_rule :
      (m : MachineContext) (msg : ClientMessage) (now : ℕ) (w : World)
      → P (report slice m msg now w.store)
      → P (machine_message connected slice m msg now w).0.store
  unfolding machine_message
  machine_message_rule m (session_opened session_id profile user) now w h = h
  machine_message_rule m (session_open_failed session_id error) now w h = h
  machine_message_rule m (session_closed session_id reason) now w h = h
  machine_message_rule m (command_started command_id at) now w h = h
  machine_message_rule m (command_output command_id sequence stream bytes) now w h =
      let r =
        add_command_output
          (record {
            organization_id = m.organization_id;
            machine_id = m.machine_id;
            command_id = command_id;
            stream = stream;
            sequence = sequence;
            bytes = bytes;
          })
          now w.store in
      accept_output_rule r.1 (record w { store = r.0 }) h
  machine_message_rule m (command_completed c) now w h =
      let r =
        mark_command_completed slice m.organization_id m.machine_id
          (record c { error = present c.error }) w.store in
      acknowledge_rule m.machine_id r.1 (record w { store = r.0 }) h

  send_cancels_rule :
      (machine_id : String) (is : List String) (w : World)
      → P w.store
      → P (send_cancels connected slice machine_id is w).0.store
  unfolding send_cancels
  send_cancels_rule machine_id [] w h = h
  send_cancels_rule machine_id (i ∷ is) w h =
      after_rule P (λ _. send_cancels connected slice machine_id is)
        (send_anyway connected machine_id (command_cancel i) w)
        (rw (send_anyway-KeepsStore connected machine_id (command_cancel i) w) h)
        (λ a w' h'. send_cancels_rule machine_id is w' h')

  pub close_sessions_rule :
      (reason : String) (ended : List (Session × List String)) (w : World)
      → P w.store
      → P (close_sessions connected slice reason ended w).0.store
  unfolding close_sessions
  close_sessions_rule reason [] w h = h
  close_sessions_rule reason ((s, is) ∷ rest) w h =
      after_rule P
        (λ _.
          send_anyway connected s.machine_id (session_close s.id reason)
          >> close_sessions connected slice reason rest)
        (send_cancels connected slice s.machine_id is w) (send_cancels_rule s.machine_id is w h)
        (λ a w' h'.
          after_rule P (λ _. close_sessions connected slice reason rest)
            (send_anyway connected s.machine_id (session_close s.id reason) w')
            (rw (send_anyway-KeepsStore connected s.machine_id (session_close s.id reason) w') h')
            (λ b w'' h''. close_sessions_rule reason rest w'' h''))

  pub sweep_rule :
      (now : ℕ) (w : World)
      → P (expire_sessions now w.store).0
      → P (sweep connected slice now w).0.store
  unfolding sweep
  sweep_rule now w h =
      let r = expire_sessions now w.store in
      close_sessions_rule "expired" r.1 (record w { store = r.0 }) h

module _ {ℓ} (P : Store → Type ℓ) where
  pub machine_authenticated_rule :
      (owner : Option String) (machine_id profile_id user : String) (policy : LocalPolicy)
      (w : World)
      → P w.store
      → ((authority : MachineAuthority)
          → authority.organization_id ≡ authority.local_policy.organization_id
          → P (put_machine_authority authority w.store))
      → P (machine_authenticated owner machine_id profile_id user policy w).0.store
  unfolding machine_authenticated
  machine_authenticated_rule none machine_id profile_id user policy w h k = h
  machine_authenticated_rule (some owner) machine_id profile_id user policy w h k =
      elim (Bool-cases (owner == policy.organization_id)) [
        | inl e ↦ rw (e, machine_authenticated) (k _ refl)
        | inr e ↦ rw (e, machine_authenticated) h
      ]
