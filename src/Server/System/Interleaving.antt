-- ===== src/Server/System/Interleaving.antt =====
-- apps/server/src/sessions.ts: calls of `createCommand` that overlap. A call reads the database and clears
-- its Command, and stores it later: whatever else the Server does may come in between. All that precedes
-- the insert is one step, since it only reads, and what follows it is another.
use odyshell.Base.{
  ℕ, zero, suc, ◌≤◌, ◌<◌, ◌≡◌, refl, inl, inr, Bool, true, Option, none, some, List, [], ◌∷◌,
  String, ◌==◌, if◌then◌else◌, leb, arith, find, find-test, select, length, ap, sym, ==_refl,
  Bool-cases,
}
use odyshell.Base.Arrays
use odyshell.Protocol.Session.{Session, CommandRequest}
use odyshell.Server.Store.{SessionRow, CommandRow, session_key, log}
use odyshell.Server.Store.Sessions.{session, row_session}
use odyshell.Server.Store.Commands.{
  command_by_idempotency, command_insert, count_active_commands, active_in,
}
use odyshell.Server.Service.World.{World}
use odyshell.Server.Service.Client.{SessionClient}
use odyshell.Server.Service.Principal.{AgentPrincipal, Digest}
use odyshell.Server.Service.CommandRequests.{Clearance, cleared, refused, clearance, start_cleared}
use odyshell.Server.Service.CommandRequests.Clearing.{clearance-eq-cleared}
use odyshell.Server.Service.CommandRequests.Effects.{creation, start_cleared_rule}
use odyshell.Server.System.Steps.{Action, step}
use odyshell.Server.System.Transitions.{creates_command, step-Transition}
use odyshell.Server.System.Output.{not_clash}
use odyshell.Server.System.Limits.{
  KeepsLimits, reserve_limits, reserved_added_limits, give_up_limits,
}
use odyshell.Server.System.Limits.Updates.{IsLimited}
use odyshell.Server.System.Limits.History.{Transition-IsLimited}

-- A call whose Command is cleared, and not yet stored.
pub record Call : Type 0 where
  pub principal : AgentPrincipal
  pub session_id : String
  pub request : CommandRequest
  pub key : String
  pub cleared_session : Session
  pub timeout : ℕ

pub record Server : Type 0 where
  pub world : World
  pub calls : List Call

abbrev pub waits_for : String → Call → Bool
waits_for i c = c.cleared_session.id == i

-- How many calls wait to store a Command of a Session.
unfoldable pub waiting : String → List Call → ℕ
waiting i [] = 0
waiting i (c ∷ calls) = if waits_for i c then suc (waiting i calls) else waiting i calls

unfoldable pub drop_at : ℕ → List Call → List Call
drop_at n [] = []
drop_at zero (c ∷ calls) = calls
drop_at (suc n) (c ∷ calls) = c ∷ drop_at n calls

waiting-drop_at :
    (i : String) (n : ℕ) (calls : List Call) (c : Call)
    → Arrays.get_elem? calls n ≡ some c
    → waiting i calls
      ≡ (if waits_for i c then suc (waiting i (drop_at n calls)) else waiting i (drop_at n calls))
unfolding waiting drop_at
waiting-drop_at i n [] c e = ground arith
waiting-drop_at i zero (x ∷ calls) c e = ground arith
waiting-drop_at i (suc n) (x ∷ calls) c e = ground (arith, waiting-drop_at i n calls c e)

pub data Await : Type 0 where
  acts : Action → Await
  checks :
      AgentPrincipal
      → (session_id : String) → CommandRequest
      → (key : String) (decided_at : ℕ) → Await
  stores : (index : ℕ) (fresh : String) (now : ℕ) → Await

module _ (client : SessionClient) (digest : Digest) (connected : String → Bool)
    (slice : String → String) (overlap : ℕ) where
  -- At most `overlap` other calls wait for the same Session.
  abbrev begin_call : Call → Server → Server
  begin_call c v =
      if leb (waiting c.cleared_session.id v.calls) overlap
      then record v { calls = c ∷ v.calls }
      else v

  abbrev check_cleared :
      AgentPrincipal → String → CommandRequest → String → Clearance → Server → Server
  check_cleared principal session_id request key (refused code) v = v
  check_cleared principal session_id request key (cleared s timeout) v =
      begin_call
        (record {
          principal = principal;
          session_id = session_id;
          request = request;
          key = key;
          cleared_session = s;
          timeout = timeout;
        })
        v

  abbrev check_new :
      AgentPrincipal → String → CommandRequest → String → ℕ → Option CommandRow → Server → Server
  check_new principal session_id request key decided_at (some replay) v = v
  check_new principal session_id request key decided_at none v =
      check_cleared principal session_id request key
        (clearance principal session_id request decided_at v.world.store) v

  abbrev store_at : ℕ → String → ℕ → Option Call → Server → Server
  store_at n fresh now none v = v
  store_at n fresh now (some c) v = record {
    world =
        (start_cleared client digest c.principal c.session_id c.request (digest.hash c.key) fresh
          now (cleared c.cleared_session c.timeout) v.world).0;
    calls = drop_at n v.calls;
  }

  -- `createCommand` is not an action here: it is the steps `checks` and `stores`.
  abbrev await_one : Await → Server → Server
  await_one (acts a) v =
      if creates_command a
      then v
      else record v { world = step client digest connected slice a v.world }
  await_one (checks p i r key at) v =
      check_new p i r key at
        (command_by_idempotency v.world.store p.organization_id i (digest.hash key)) v
  await_one (stores n fresh now) v = store_at n fresh now (Arrays.get_elem? v.calls n) v

  unfoldable pub await_all : List Await → Server → Server
  await_all [] v = v
  await_all (a ∷ rest) v = await_all rest (await_one a v)

  abbrev reserved : Server → String → ℕ
  reserved v i = waiting i v.calls

  record IsInLimits (v : Server) : Type 0 where
    few : (i : String) → reserved v i ≤ suc overlap
    limits : IsLimited (reserved v) overlap v.world.store

  act-IsInLimits : (a : Action) (v : Server) → IsInLimits v → IsInLimits (await_one (acts a) v)
  act-IsInLimits a v h = elim (Bool-cases (creates_command a)) [
    | inl creating ↦ rw creating h
    | inr other ↦
        let goes = step-Transition client digest connected slice a v.world in
        rw other (record {
          few = h.few;
          limits =
              Transition-IsLimited (reserved v) overlap client digest slice v.world.store _ other
                h.few h.limits goes;
        })
  ]

  -- The row of the Session that a query finds.
  found_row :
      (o : Option SessionRow) (s : Session)
      → row_session o ≡ some s
      → (r : SessionRow) × (o ≡ some r) × (r.session ≡ s)
  found_row none s e = cc
  found_row (some r) s e = (r, refl, ground arith)

  check-IsInLimits :
      (p : AgentPrincipal) (i : String) (r : CommandRequest) (key : String) (at : ℕ) (v : Server)
      → IsInLimits v
      → IsInLimits (await_one (checks p i r key at) v)
  unfolding session count_active_commands waiting
  check-IsInLimits p i r key at v h =
      new (command_by_idempotency v.world.store p.organization_id i (digest.hash key))
    where
      begins :
          (s : Session) (timeout : ℕ)
          → clearance p i r at v.world.store ≡ cleared s timeout
          → IsInLimits (check_cleared p i r key (cleared s timeout) v)
      begins s timeout clear =
          let (at_s, own, room, rest) =
            (clearance-eq-cleared v.world.store p i r at s timeout).0 clear in
          let query = session_key p.organization_id i in
          let (row, at_row, same) = found_row (find query v.world.store.sessions) s at_s in
          let is_query : query row ≡ true = find-test query v.world.store.sessions row at_row in
          let org : p.organization_id ≡ row.organization_id = ground arith in
          let fits : length (select (active_in row.organization_id row.id) v.world.store.commands)
              < row.max_concurrent_commands =
            rw (← org, same) room in
          let id : s.id ≡ row.id = ap (λ t. t.id) (sym same) in
          elim (Bool-cases (leb (waiting s.id v.calls) overlap)) [
            | inr full ↦ rw full h
            | inl free ↦ rw free (record {
              few = λ j. let before = h.few j in ground arith;
              limits =
                  reserve_limits (reserved v) _ overlap row query v.world.store.sessions
                    v.world.store.commands at_row (ground arith) (λ j apart. ground arith) h.limits;
            })
          ]

      clears :
          (a : Clearance)
          → clearance p i r at v.world.store ≡ a
          → IsInLimits (check_cleared p i r key a v)
      clears (refused code) e = h
      clears (cleared s timeout) e = begins s timeout e

      new : (o : Option CommandRow) → IsInLimits (check_new p i r key at o v)
      new (some replay) = h
      new none = clears (clearance p i r at v.world.store) refl

  store-IsInLimits :
      (n : ℕ) (fresh : String) (now : ℕ) (v : Server)
      → IsInLimits v
      → IsInLimits (await_one (stores n fresh now) v)
  unfolding log
  store-IsInLimits n fresh now v h = go (Arrays.get_elem? v.calls n) refl
    where
      go :
          (o : Option Call) → Arrays.get_elem? v.calls n ≡ o → IsInLimits (store_at n fresh now o v)
      go none e = h
      go (some c) e =
          let left : String → ℕ = λ j. waiting j (drop_at n v.calls) in
          let fewer : (j : String) → left j ≤ reserved v j =
            λ j. let gone = waiting-drop_at j n v.calls c e in ground arith in
          record {
            few = λ j. let less = fewer j in let before = h.few j in omega arith;
            limits =
                start_cleared_rule (IsLimited left overlap) client digest c.principal c.session_id
                  c.request (digest.hash c.key) fresh now (cleared c.cleared_session c.timeout)
                  v.world
                  (give_up_limits (reserved v) left overlap v.world.store.sessions
                    v.world.store.commands fewer h.limits)
                  (λ s timeout same clash held.
                    let row = command_insert (
                      creation client digest c.principal c.session_id c.request (digest.hash c.key)
                        fresh now s timeout) in
                    let gone = waiting-drop_at s.id n v.calls c e in
                    let is_s : c.cleared_session ≡ s = ground arith in
                    let hit : waits_for s.id c ≡ true = (rw is_s (==_refl s.id)) in
                    reserved_added_limits (reserved v) left overlap row v.world.store.sessions
                      v.world.store.commands fewer (ground arith) held
                      (not_clash row v.world.store.commands clash) h.limits);
          }

  await_all-IsInLimits :
      (awaits : List Await) (v : Server) → IsInLimits v → IsInLimits (await_all awaits v)
  unfolding await_all
  await_all-IsInLimits [] v h = h
  await_all-IsInLimits (acts a ∷ rest) v h = await_all-IsInLimits rest _ (act-IsInLimits a v h)
  await_all-IsInLimits (checks p i r key at ∷ rest) v h =
      await_all-IsInLimits rest _ (check-IsInLimits p i r key at v h)
  await_all-IsInLimits (stores n fresh now ∷ rest) v h =
      await_all-IsInLimits rest _ (store-IsInLimits n fresh now v h)

  -- Whatever the Server does, however the calls of `createCommand` overlap with each other and with
  -- anything else: if at most `overlap` other calls ever wait for a Session at which a call waits to
  -- store its Command, then the active Commands of a Session and the calls that wait for it are
  -- together at most the Commands that it was granted and `overlap` more, so that calls that do not
  -- overlap keep the limit. Each Command belongs to a Session that is there, and ids stay different.
  -- The history starts at any database of which this holds, with no call.
  pub await_all-KeepsLimits :
      (awaits : List Await) (w : World)
      → KeepsLimits (λ i. 0) overlap w.store.sessions w.store.commands
      → let later = await_all awaits (record { world = w; calls = [] }) in
        KeepsLimits
          (λ i. waiting i later.calls)
          overlap
          later.world.store.sessions
          later.world.store.commands
  unfolding waiting
  await_all-KeepsLimits awaits w h =
      (await_all-IsInLimits awaits (record { world = w; calls = [] })
        (record { few = λ i. omega arith; limits = h })).limits
