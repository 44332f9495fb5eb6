-- ===== src/Server/Gateway/Routes.antt =====
-- apps/server/src/gateway.ts: the connections that `ClientGateway` keeps, and the status of the Machines.
use odyshell.Base.{
  ℕ, ◌≡◌, ◌≢◌, ◌∙◌, refl, inl, inr, Bool, true, false, ◌&&◌, Option, none, some, List, [], ◌∷◌,
  String, ◌==◌, any, any-update, find, update, remove, arith, All, All-map, All-remove, Bool-cases,
}
use odyshell.Server.Gateway.{
  MachineRow, Socket, Route, Gateway, has_machine, has_connection, routes_to, set_status,
  set_unrevoked, unrevoked, close_socket, open_socket, close_previous, left, disconnect_found,
  disconnect, socket_ready,
}

-- The database has the Machine as online.
abbrev pub IsOnline : String → List MachineRow → Type 0
IsOnline i machines = any (λ m. has_machine i m && m.online) machines ≡ true

abbrev pub ready_in : String → List Socket → Bool
ready_in i sockets = socket_ready (find (has_connection i) sockets)

-- Every connection has its socket, and while that is ready the database has its Machine as online.
abbrev pub IsLive : List MachineRow → List Socket → Route → Type 0
IsLive machines sockets r =
    (any (has_connection r.connection_id) sockets ≡ true)
    × (ready_in r.connection_id sockets ≡ true → IsOnline r.machine_id machines)

abbrev pub IsRouted : Gateway → Type 0
IsRouted g = All (IsLive g.machines g.sockets) g.connections

-- A change of sockets that makes none of them ready.
pub ready-update :
    (i c : String) (f : Socket → Socket) (sockets : List Socket)
    → ((s : Socket) → (f s).connection_id ≡ s.connection_id)
    → ((s : Socket) → (f s).ready ≡ true → s.ready ≡ true)
    → ready_in i (update (has_connection c) f sockets) ≡ true
    → ready_in i sockets ≡ true
unfolding find update
ready-update i c f [] same quiet h = h
ready-update i c f (s ∷ sockets) same quiet h =
    ground (arith, same s, quiet s, ready-update i c f sockets same quiet)

pub ready-closed :
    (c : String) (sockets : List Socket)
    → ready_in c (update (has_connection c) (λ s. record s { ready = false }) sockets) ≡ false
unfolding find update
ready-closed c [] = refl
ready-closed c (s ∷ sockets) = ground (arith, ready-closed c sockets)

pub unrevoked-IsOnline :
    (i j : String) (machines : List MachineRow)
    → IsOnline j machines
    → IsOnline j (set_unrevoked true i machines)
unfolding set_unrevoked any update
unrevoked-IsOnline i j [] h = h
unrevoked-IsOnline i j (m ∷ machines) h = ground (arith, unrevoked-IsOnline i j machines)

pub set_unrevoked-IsOnline :
    (i : String) (machines : List MachineRow)
    → any (unrevoked i) machines ≡ true
    → IsOnline i (set_unrevoked true i machines)
unfolding set_unrevoked any update
set_unrevoked-IsOnline i [] h = cc
set_unrevoked-IsOnline i (m ∷ machines) h = ground (arith, set_unrevoked-IsOnline i machines)

pub other-IsOnline :
    (i j : String) (machines : List MachineRow)
    → j ≢ i
    → IsOnline j machines
    → IsOnline j (set_status false i machines)
unfolding set_status any update
other-IsOnline i j [] other h = h
other-IsOnline i j (m ∷ machines) other h = ground (arith, other-IsOnline i j machines other)

-- Sockets updated without becoming ready, and Machines that come online.
pub updated-IsLive :
    (c : String) (f : Socket → Socket) (machines later : List MachineRow) (sockets : List Socket)
    (routes : List Route)
    → ((s : Socket) → (f s).connection_id ≡ s.connection_id)
    → ((s : Socket) → (f s).ready ≡ true → s.ready ≡ true)
    → ((i : String) → IsOnline i machines → IsOnline i later)
    → All (IsLive machines sockets) routes
    → All (IsLive later (update (has_connection c) f sockets)) routes
updated-IsLive c f machines later sockets routes same quiet more h =
    All-map (IsLive later (update (has_connection c) f sockets)) routes
      (λ r (known, live). (
        any-update (λ s. s.connection_id) (has_connection c) f r.connection_id sockets same ∙ known,
        λ ready.
            more r.machine_id (live (ready-update r.connection_id c f sockets same quiet ready)),
      ))
      h

pub closed-IsRouted :
    (c : String) (code : ℕ) (g : Gateway) → IsRouted g → IsRouted (close_socket c code g)
unfolding close_socket
closed-IsRouted c code g h =
    updated-IsLive c (λ s. record s { ready = false }) g.machines g.machines g.sockets g.connections
      (λ s. refl) (λ s e. cc) (λ i online. online) h

pub open-IsRouted : (c nonce : String) (g : Gateway) → IsRouted g → IsRouted (open_socket c nonce g)
unfolding open_socket find any
open-IsRouted c nonce g h = elim (Bool-cases (any (has_connection c) g.sockets)) [
  | inl taken ↦ rw (taken, open_socket) h
  | inr fresh ↦
      rw (fresh, open_socket)
        (All-map _ g.connections
          (λ r (known, live).
            let other : c ≢ r.connection_id = apart r.connection_id fresh known in
            (ground arith, λ ready. live (ground arith)))
          h)
]
  where
    apart :
        (i : String)
        → any (has_connection c) g.sockets ≡ false
        → any (has_connection i) g.sockets ≡ true
        → c ≢ i
    apart i fresh known same =
        let there : any (has_connection c) g.sockets ≡ true = rw same known in cc

pub previous-IsRouted :
    (c : String) (o : Option Route) (g : Gateway) → IsRouted g → IsRouted (close_previous c o g)
previous-IsRouted c none g h = h
previous-IsRouted c (some r) g h = elim (Bool-cases (r.connection_id == c)) [
  | inl same ↦ rw same h
  | inr other ↦ rw other (closed-IsRouted r.connection_id 4003 g h)
]

-- The Machine's routes may be put aside, and its status changed.
pub removed-IsLive :
    (m : String) (machines : List MachineRow) (sockets : List Socket) (routes : List Route)
    → All (IsLive machines sockets) routes
    → All (IsLive (set_status false m machines) sockets) (remove (routes_to m) routes)
unfolding remove
removed-IsLive m machines sockets [] h = tt
removed-IsLive m machines sockets (r ∷ routes) ((known, live), h) =
    let rest = removed-IsLive m machines sockets routes h in
    elim (Bool-cases (routes_to m r)) [
      | inl same ↦ rw (same, remove) rest
      | inr other ↦
          let apart : r.machine_id ≢ m = ground arith in
          rw (other, remove)
            ((known, λ ready. other-IsOnline m r.machine_id machines apart (live ready)), rest)
    ]

pub left-IsRouted :
    (s : Socket) (m : String) (o : Option Route) (g : Gateway)
    → IsRouted g
    → IsRouted (left s m o g)
left-IsRouted s m none g h = h
left-IsRouted s m (some r) g h = elim (Bool-cases (r.connection_id == s.connection_id)) [
  | inr other ↦ rw other h
  | inl same ↦ rw same (removed-IsLive m g.machines g.sockets g.connections h)
]

pub disconnect-IsRouted : (m : String) (g : Gateway) → IsRouted g → IsRouted (disconnect m g)
unfolding disconnect
disconnect-IsRouted m g h = go (find (routes_to m) g.connections)
  where
    go : (o : Option Route) → IsRouted (disconnect_found o g)
    go none = h
    go (some r) =
        closed-IsRouted r.connection_id 4004
          (record g { connections = remove (routes_to r.machine_id) g.connections })
          (All-remove (IsLive g.machines g.sockets) (routes_to r.machine_id) g.connections h)
