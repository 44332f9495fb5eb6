-- ===== src/Server/Gateway/Reaching.antt =====
-- apps/server/src/gateway.ts: the states that `ClientGateway` comes to.
use odyshell.Base.{
  ℕ, ◌≡◌, refl, inl, inr, Bool, true, Option, none, some, List, [], String, ◌==◌, any, find,
  find-test, arith, All-find, HasUniqueKeys, remove-HasUniqueKeys, Bool-cases,
}
use odyshell.Protocol.Messages.{ClientMessage}
use odyshell.Server.Gateway.{
  MachineRow, Socket, Route, Gateway, Authenticate, has_machine, has_connection, routes_to,
  set_unrevoked, close_socket, open_socket, enter, left, leave, disconnect_found, disconnect,
  route_ready, is_online, begin_with, begin_authentication, heartbeat, heard, handle_heartbeat,
  handle_message, is_due,
}
use odyshell.Server.Gateway.Routes.{
  IsOnline, IsRouted, unrevoked-IsOnline, updated-IsLive, closed-IsRouted, open-IsRouted,
  left-IsRouted, disconnect-IsRouted,
}
use odyshell.Server.Gateway.Connecting.{machine_of}
use odyshell.Server.Gateway.Entry.{enter-IsRouted}

abbrev IsKept : Gateway → Type 0
IsKept g = HasUniqueKeys machine_of g.connections × IsRouted g

closed-IsKept : (c : String) (code : ℕ) (g : Gateway) → IsKept g → IsKept (close_socket c code g)
unfolding close_socket
closed-IsKept c code g (unique, h) = (unique, closed-IsRouted c code g h)

open-IsKept : (c nonce : String) (g : Gateway) → IsKept g → IsKept (open_socket c nonce g)
unfolding open_socket
open-IsKept c nonce g (unique, h) = elim (Bool-cases (any (has_connection c) g.sockets)) [
  | inl taken ↦ (rw taken unique, open-IsRouted c nonce g h)
  | inr fresh ↦ (rw fresh unique, open-IsRouted c nonce g h)
]

leave-IsKept : (s : Socket) (m : String) (g : Gateway) → IsKept g → IsKept (leave s m g)
unfolding leave
leave-IsKept s m g (unique, h) = (
  go (find (routes_to m) g.connections),
  left-IsRouted s m (find (routes_to m) g.connections) g h,
)
  where
    go : (o : Option Route) → HasUniqueKeys machine_of (left s m o g).connections
    go none = unique
    go (some r) = elim (Bool-cases (r.connection_id == s.connection_id)) [
      | inl same ↦ rw same (remove-HasUniqueKeys machine_of (routes_to m) g.connections unique)
      | inr other ↦ rw other unique
    ]

disconnect-IsKept : (m : String) (g : Gateway) → IsKept g → IsKept (disconnect m g)
unfolding disconnect close_socket
disconnect-IsKept m g (unique, h) =
    (go (find (routes_to m) g.connections), disconnect-IsRouted m g h)
  where
    go : (o : Option Route) → HasUniqueKeys machine_of (disconnect_found o g).connections
    go none = unique
    go (some r) = remove-HasUniqueKeys machine_of (routes_to r.machine_id) g.connections unique

heartbeat-IsKept :
    (s : Socket) (m : String) (now : ℕ) (g : Gateway) → IsKept g → IsKept (heartbeat s m now g)
unfolding heartbeat
heartbeat-IsKept s m now g (unique, h) = elim (Bool-cases (is_due s.last_heartbeat now)) [
  | inl due ↦ rw due (
    unique,
    updated-IsLive s.connection_id (λ t. record t { last_heartbeat = some now }) g.machines
        (set_unrevoked true m g.machines) g.sockets g.connections (λ t. refl) (λ t e. e)
        (λ i. unrevoked-IsOnline m i g.machines) h,
  )
  | inr early ↦ rw early (unique, h)
]

heard-IsKept :
    (s : Socket) (o : Option String) (g : Gateway) (f : String → Gateway)
    → ((m : String) → IsKept (f m))
    → IsKept g
    → IsKept (heard s o g f)
heard-IsKept s none g f each h = closed-IsKept s.connection_id 4002 g h
heard-IsKept s (some m) g f each h = elim (Bool-cases s.authenticated) [
  | inl e ↦ rw e (each m)
  | inr e ↦ rw e (closed-IsKept s.connection_id 4002 g h)
]

handle_heartbeat-IsKept :
    (s : Socket) (named : String) (now : ℕ) (g : Gateway)
    → IsKept g
    → IsKept (handle_heartbeat s named now g)
unfolding handle_heartbeat
handle_heartbeat-IsKept s named now g h =
    heard-IsKept s s.machine_id g _
      (λ m. elim (Bool-cases (named == m)) [
        | inl e ↦ rw e (heartbeat-IsKept s named now g h)
        | inr e ↦ rw e (closed-IsKept s.connection_id 4002 g h)
      ])
      h

handle_message-IsKept :
    (s : Socket) (message : ClientMessage) (g : Gateway)
    → IsKept g
    → IsKept (handle_message s message g)
unfolding handle_message
handle_message-IsKept s message g h = heard-IsKept s s.machine_id g _ (λ m. h) h

module _ (verify : (public_key connection_id nonce signature : String) → Bool) where
  begin-IsKept :
      (s : Socket) (message : Authenticate) (o : Option MachineRow) (g : Gateway)
      → message.compatible ≡ true
      → IsKept g
      → IsKept (begin_with verify s message o g)
  begin-IsKept s message none g e h = closed-IsKept s.connection_id 4002 g h
  begin-IsKept s message (some m) g e h =
      elim (Bool-cases (verify m.public_key s.connection_id s.nonce message.signature)) [
        | inr forged ↦ rw forged (closed-IsKept s.connection_id 4002 g h)
        | inl signed ↦
            rw (signed, e)
              (
                h.0,
                updated-IsLive s.connection_id _ g.machines g.machines g.sockets g.connections
                    (λ t. refl) (λ t k. k) (λ i k. k) h.1,
              )
      ]

  -- The gateway starts with no socket. A socket that enters or leaves is one that was opened; the
  -- protocol of each that authenticates is compatible.
  pub data Reached : Gateway → Type 0 where
    starts :
        (machines : List MachineRow)
        → Reached (record { machines = machines; sockets = []; connections = []; calls = [] })
    opens :
        {g : Gateway} (connection_id nonce : String)
        → Reached g
        → Reached (open_socket connection_id nonce g)
    closes :
        {g : Gateway} (connection_id : String) (code : ℕ)
        → Reached g
        → Reached (close_socket connection_id code g)
    begins :
        {g : Gateway} (s : Socket) (message : Authenticate)
        → message.compatible ≡ true
        → Reached g
        → Reached (begin_authentication verify s message g)
    enters :
        {g : Gateway} (s : Socket) (machine_id : String) (seen : MachineRow) (now : ℕ)
        (still_ready : Bool)
        → any (has_connection s.connection_id) g.sockets ≡ true
        → Reached g
        → Reached (enter s machine_id seen now still_ready g)
    leaves :
        {g : Gateway} (s : Socket) (machine_id : String)
        → Reached g
        → Reached (leave s machine_id g)
    disconnects :
        {g : Gateway} (machine_id : String) → Reached g → Reached (disconnect machine_id g)
    beats :
        {g : Gateway} (s : Socket) (named : String) (now : ℕ)
        → Reached g
        → Reached (handle_heartbeat s named now g)
    hears :
        {g : Gateway} (s : Socket) (message : ClientMessage)
        → Reached g
        → Reached (handle_message s message g)

  reached-IsKept : (g : Gateway) → Reached g → IsKept g
  unfolding begin_authentication
  reached-IsKept g (starts machines) = (tt, tt)
  reached-IsKept g (opens {g = f} c nonce r) = open-IsKept c nonce f (reached-IsKept f r)
  reached-IsKept g (closes {g = f} c code r) = closed-IsKept c code f (reached-IsKept f r)
  reached-IsKept g (begins {g = f} s message e r) =
      begin-IsKept s message (find (has_machine message.machine_id) f.machines) f e
        (reached-IsKept f r)
  reached-IsKept g (enters {g = f} s m seen now still there r) =
      let h = reached-IsKept f r in enter-IsRouted s m seen now still f there h.0 h.1
  reached-IsKept g (leaves {g = f} s m r) = leave-IsKept s m f (reached-IsKept f r)
  reached-IsKept g (disconnects {g = f} m r) = disconnect-IsKept m f (reached-IsKept f r)
  reached-IsKept g (beats {g = f} s named now r) =
      handle_heartbeat-IsKept s named now f (reached-IsKept f r)
  reached-IsKept g (hears {g = f} s message r) =
      handle_message-IsKept s message f (reached-IsKept f r)

  -- In a state that the gateway comes to, a Machine has one connection at most, and the database has each
  -- Machine that the gateway takes for online as online. The protocols that authenticate are compatible.
  pub is_online-IsOnline :
      (g : Gateway)
      → Reached g
      → HasUniqueKeys machine_of g.connections
        × ((machine_id : String) → is_online machine_id g ≡ true → IsOnline machine_id g.machines)
  unfolding is_online
  is_online-IsOnline g r =
      let h = reached-IsKept g r in (h.0, λ m. go m (find (routes_to m) g.connections) refl h.1)
    where
      go :
          (m : String) (o : Option Route)
          → find (routes_to m) g.connections ≡ o
          → IsRouted g
          → route_ready o g.sockets ≡ true
          → IsOnline m g.machines
      go m none e h ready = cc
      go m (some p) e h ready =
          let own : p.machine_id ≡ m =
            (let t = find-test (routes_to m) g.connections p e in ground arith) in
          (let online = (All-find _ (routes_to m) g.connections p h e).1 ready in rw (← own) online)
