-- ===== src/Server/System/Limits/Updates.antt =====
-- What the updates of the database do to the limit on active Commands.
use odyshell.Base.{
  ℕ, Bool, true, false, ◌&&◌, some, List, [], ◌∷◌, String, ◌≡◌, refl, inl, inr, arith, ◌==◌, find,
  update, select, any, has_key, HasUniqueKeys, All, All-map, All-not-any, All-find_unique, ◌≢◌,
  find-test,
}
use odyshell.Protocol.Session.{SessionStatus}
use odyshell.Protocol.Messages.{CommandCompleted, OutputStream, stdout, stderr}
use odyshell.Server.Store.{
  Store, SessionRow, CommandRow, change_command, command_key, is_active_command, is_undelivered,
}
use odyshell.Server.Store.Sessions.{Decision, approve, deny, decide_row}
use odyshell.Server.Store.Commands.{active_in, cancel_row}
use odyshell.Server.Store.Endings.{
  Outcome, complete, cancel, end_row, cancel_commands, ids, mem_id, request_end,
}
use odyshell.Server.Store.Endings.Effects.{IsStopped, in_ids, active_commands}
use odyshell.Server.Store.Reports.{
  add_bytes, finish_row, start_row, complete_row, command_on_machine,
}
use odyshell.Server.Store.Reports.Effects.{completed_row}
use odyshell.Server.System.Output.{command_id_of}
use odyshell.Server.System.Limits.{KeepsLimits, Regular, Quiet, command_update}

pub finish_Regular : (status : SessionStatus) (now : ℕ) → Regular (finish_row status now)
finish_Regular status now = record {
  same_id = λ s. refl;
  same_organization = λ s. refl;
  same_limit = λ s. refl;
}

pub decide_Regular : (d : Decision) (now : ℕ) → Regular (decide_row d now)
decide_Regular approve now = record {
  same_id = λ s. refl;
  same_organization = λ s. refl;
  same_limit = λ s. refl;
}
decide_Regular deny now = record {
  same_id = λ s. refl;
  same_organization = λ s. refl;
  same_limit = λ s. refl;
}

pub end_Regular : (d : Outcome) (now : ℕ) → Regular (end_row d now)
end_Regular complete now = record {
  same_id = λ s. refl;
  same_organization = λ s. refl;
  same_limit = λ s. refl;
}
end_Regular cancel now = record {
  same_id = λ s. refl;
  same_organization = λ s. refl;
  same_limit = λ s. refl;
}

pub request_Regular : Regular request_end
request_Regular = record {
  same_id = λ s. refl;
  same_organization = λ s. refl;
  same_limit = λ s. refl;
}

cancel_Quiet : Quiet cancel_row
cancel_Quiet = record {
  same_id = λ c. refl;
  same_session = λ c. refl;
  same_organization = λ c. refl;
}

everywhere : {P : CommandRow → Type 0} (xs : List CommandRow) → ((c : CommandRow) → P c) → All P xs
everywhere [] f = tt
everywhere (c ∷ cs) f = (f c, everywhere cs f)

module _ (reserved : String → ℕ) (slack : ℕ) where
  abbrev pub IsLimited : Store → Type 0
  IsLimited st = KeepsLimits reserved slack st.sessions st.commands

  -- A cancellation of active Commands.
  pub cancel_keeps :
      (o s : String) (sessions : List SessionRow) (commands : List CommandRow)
      → KeepsLimits reserved slack sessions commands
      → KeepsLimits reserved slack sessions
          (update (active_in o s) (change_command cancel_row) commands)
  cancel_keeps o s sessions commands h =
      command_update reserved slack (active_in o s) cancel_row sessions commands cancel_Quiet
        (everywhere commands (λ c at_c still. ground arith)) h

  any-ids :
      (i : String) (a : CommandRow → Bool) (xs : List CommandRow)
      → any (has_key command_id_of i) xs ≡ false
      → mem_id (ids (select a xs)) i ≡ false
  unfolding any select
  any-ids i a [] h = refl
  any-ids i a (x ∷ xs) h = ground (arith, any-ids i a xs)

  -- Under unique ids the ids of the Commands selected name those Commands alone.
  named_only :
      (a : CommandRow → Bool) (xs : List CommandRow)
      → HasUniqueKeys command_id_of xs
      → All (λ c. mem_id (ids (select a xs)) c.id ≡ true → a c ≡ true) xs
  unfolding select
  named_only a [] unique = tt
  named_only a (x ∷ xs) unique = (
    (λ named. let none_named = any-ids x.id a xs unique.0 in ground arith),
    All-map (λ c. mem_id (ids (select a (x ∷ xs))) c.id ≡ true → a c ≡ true) xs
        (λ c (k : (c.id ≢ x.id) × (mem_id (ids (select a xs)) c.id ≡ true → a c ≡ true)) named.
          let (apart, rest) = k in ground (arith, apart, rest))
        (both xs (All-not-any command_id_of x.id xs unique.0) (named_only a xs unique.1)),
  )
    where
      both :
          (cs : List CommandRow)
          → All (λ c. c.id ≢ x.id) cs
          → All (λ c. mem_id (ids (select a xs)) c.id ≡ true → a c ≡ true) cs
          → All (λ c. (c.id ≢ x.id) × (mem_id (ids (select a xs)) c.id ≡ true → a c ≡ true)) cs
      both [] h k = tt
      both (c ∷ cs) h k = ((h.0, k.0), both cs h.1 k.1)

  pub stopped_keeps :
      (o s : String) (st : Store) (commands : List CommandRow)
      → IsStopped o s st commands
      → IsLimited st
      → KeepsLimits reserved slack st.sessions commands
  stopped_keeps o s st commands (inl e) h = rw e h
  stopped_keeps o s st commands (inr e) h = rw e (
      command_update reserved slack (in_ids o (ids (active_commands o s st))) cancel_row st.sessions
        st.commands cancel_Quiet
        (All-map _ st.commands
          (λ c (named : mem_id (ids (active_commands o s st)) c.id ≡ true → active_in o s c ≡ true)
              at_c still.
            let is_named : active_in o s c ≡ true = named (ground arith) in ground arith)
          (named_only (active_in o s) st.commands h.1))
        h)

  pub cancel_commands_keeps :
      (ended : List SessionRow) (sessions : List SessionRow) (commands : List CommandRow)
      → KeepsLimits reserved slack sessions commands
      → KeepsLimits reserved slack sessions (cancel_commands ended commands).0
  unfolding cancel_commands
  cancel_commands_keeps [] sessions commands h = h
  cancel_commands_keeps (s ∷ ss) sessions commands h =
      cancel_commands_keeps ss sessions _ (cancel_keeps s.organization_id s.id sessions commands h)

  pub cancellation_keeps :
      (o a i : String) (st : Store) (current : CommandRow)
      → find (λ r. command_key o i r && r.agent_id == a) st.commands ≡ some current
      → is_active_command current.status ≡ true
      → IsLimited st
      → KeepsLimits reserved slack st.sessions
          (update (command_key o i) (change_command cancel_row) st.commands)
  cancellation_keeps o a i st current at_current active h =
      let key : CommandRow → Bool = λ r. command_key o i r && r.agent_id == a in
      let is_key : key current ≡ true = find-test key st.commands current at_current in
      command_update reserved slack (command_key o i) cancel_row st.sessions st.commands
        cancel_Quiet
        (All-map _ st.commands
          (λ c (same : c.id ≡ current.id → c ≡ current) at_c still.
            let one : c ≡ current = same (ground arith) in rw one active)
          (All-find_unique command_id_of key st.commands current h.1 at_current))
        h

  -- Output leaves the status alone.
  pub output_keeps :
      (stream : OutputStream) (n : ℕ) (p : CommandRow → Bool) (sessions : List SessionRow)
      (commands : List CommandRow)
      → KeepsLimits reserved slack sessions commands
      → KeepsLimits reserved slack sessions
          (update p (change_command (add_bytes stream n)) commands)
  output_keeps stream n p sessions commands h =
      command_update reserved slack p (add_bytes stream n) sessions commands (quiet stream)
        (everywhere commands (λ c at_c still. calm stream c still)) h
    where
      quiet : (stream : OutputStream) → Quiet (add_bytes stream n)
      quiet stdout = record {
        same_id = λ c. refl;
        same_session = λ c. refl;
        same_organization = λ c. refl;
      }
      quiet stderr = record {
        same_id = λ c. refl;
        same_session = λ c. refl;
        same_organization = λ c. refl;
      }

      calm :
          (stream : OutputStream) (c : CommandRow)
          → is_active_command (add_bytes stream n c.command_record).status ≡ true
          → is_active_command c.status ≡ true
      calm stdout c still = still
      calm stderr c still = still

  pub start_keeps :
      (o m i : String) (at : ℕ) (sessions : List SessionRow) (commands : List CommandRow)
      → KeepsLimits reserved slack sessions commands
      → KeepsLimits reserved slack sessions (
          update
            (λ r. command_on_machine o m i r && is_undelivered r.status)
            (change_command (start_row at))
            commands)
  start_keeps o m i at sessions commands h =
      command_update reserved slack (λ r. command_on_machine o m i r && is_undelivered r.status)
        (start_row at) sessions commands
        (record { same_id = λ c. refl; same_session = λ c. refl; same_organization = λ c. refl })
        (everywhere commands (λ c at_c still. ground arith)) h

  pub complete_keeps :
      (slice : String → String) (o m i : String) (r : CommandCompleted) (sessions : List SessionRow)
      (commands : List CommandRow)
      → KeepsLimits reserved slack sessions commands
      → KeepsLimits reserved slack sessions
          (update (completed_row o m i) (change_command (complete_row slice r)) commands)
  complete_keeps slice o m i r sessions commands h =
      command_update reserved slack (completed_row o m i) (complete_row slice r) sessions commands
        (record { same_id = λ c. refl; same_session = λ c. refl; same_organization = λ c. refl })
        (everywhere commands (λ c at_c still. ground arith)) h
