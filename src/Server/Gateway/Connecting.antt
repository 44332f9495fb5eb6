-- ===== src/Server/Gateway/Connecting.antt =====
-- apps/server/src/gateway.ts: what comes of the connections when a Machine is connected.
use odyshell.Base.{
  ℕ, ◌≡◌, ◌⊎◌, ◌∙◌, refl, inl, inr, Bool, true, false, not, some, List, [], ◌∷◌, String, ◌==◌,
  if◌then◌else◌, any, any-update, update, remove, arith, All, All-map, All-remove, Bool-cases,
}
use odyshell.Server.Gateway.{
  MachineRow, Socket, Route, Gateway, has_connection, routes_to, set_status, set_unrevoked,
  unrevoked, close_socket, route, call, connected, hook_reconnected,
}
use odyshell.Server.Gateway.Routes.{
  ready_in, IsLive, IsRouted, ready-update, ready-closed, unrevoked-IsOnline,
  set_unrevoked-IsOnline, other-IsOnline, updated-IsLive, closed-IsRouted,
}

abbrev pub machine_of : Route → String
machine_of r = r.machine_id

-- No route of the Machine but the socket's own leads to a socket that is ready.
abbrev pub IsAlone : String → String → List Socket → List Route → Type 0
IsAlone m c sockets routes =
    All (λ r. r.machine_id ≡ m → (r.connection_id ≡ c) ⊎ (ready_in r.connection_id sockets ≡ false))
      routes

-- The Machine is set offline, and the socket is not ready.
failed-IsRouted :
    (s : Socket) (m : String) (machines : List MachineRow) (sockets : List Socket)
    (routes : List Route)
    → IsAlone m s.connection_id sockets routes
    → All (IsLive machines sockets) routes
    → All
        (IsLive
          (set_status false m (set_unrevoked true m machines))
          (update (has_connection s.connection_id) (λ t. record t { ready = false }) sockets))
        routes
failed-IsRouted s m machines sockets [] alone h = tt
failed-IsRouted s m machines sockets (r ∷ routes) (one, alone) ((known, live), h) = (
  (
    any-update (λ s. s.connection_id) (has_connection s.connection_id)
          (λ t. record t { ready = false }) r.connection_id sockets (λ t. refl)
        ∙ known,
    λ ready. elim (Bool-cases (r.machine_id == m)) [
      | inl same ↦ (let never = gone (one (ground arith)) ready in cc)
      | inr other ↦ other-IsOnline m r.machine_id (set_unrevoked true m machines) (ground arith) (
          unrevoked-IsOnline m r.machine_id machines (
            live (
              ready-update r.connection_id s.connection_id (λ t. record t { ready = false }) sockets
                (λ t. refl) (λ t e. cc) ready)))
    ],
  ),
  failed-IsRouted s m machines sockets routes alone h,
)
  where
    gone :
        (r.connection_id ≡ s.connection_id) ⊎ (ready_in r.connection_id sockets ≡ false)
        → ready_in r.connection_id
            (update (has_connection s.connection_id) (λ t. record t { ready = false }) sockets)
          ≡ true
        → true ≡ false
    gone (inl own) ready =
        let shut : ready_in r.connection_id
              (update (has_connection s.connection_id) (λ t. record t { ready = false }) sockets)
            ≡ false =
          rw own (ready-closed s.connection_id sockets) in
        cc
    gone (inr quiet) ready =
        let was =
          ready-update r.connection_id s.connection_id (λ t. record t { ready = false }) sockets
            (λ t. refl) (λ t e. cc) ready in
        cc

pub connected-IsRouted :
    (s : Socket) (m : String) (now : ℕ) (still_ready : Bool) (g : Gateway)
    → any (has_connection s.connection_id) g.sockets ≡ true
    → IsAlone m s.connection_id g.sockets g.connections
    → IsRouted g
    → IsRouted (connected s m now still_ready g)
connected-IsRouted s m now still_ready g there alone h =
    go (any (unrevoked m) g.machines) still_ready refl
  where
    more : All (IsLive (set_unrevoked true m g.machines) g.sockets) g.connections
    more =
        All-map _ g.connections
          (λ r (known, live).
            (known, λ ready. unrevoked-IsOnline m r.machine_id g.machines (live ready)))
          h

    go :
        (free still : Bool)
        → any (unrevoked m) g.machines ≡ free
        → IsRouted (
            let online = record g { machines = set_unrevoked true m g.machines } in
            if not free
            then close_socket s.connection_id 4004 online
            else if not still
            then record online {
              machines = set_status false m online.machines;
              sockets =
                  update
                    (has_connection s.connection_id)
                    (λ t. record t { ready = false })
                    g.sockets;
            }
            else call (hook_reconnected m s.organization_id) (record online {
              connections = route m s.connection_id g.connections;
              sockets =
                  update
                    (has_connection s.connection_id)
                    (λ t. record t { authenticated = true; last_heartbeat = some now })
                    g.sockets;
            }))
    go false still e =
        closed-IsRouted s.connection_id 4004
          (record g { machines = set_unrevoked true m g.machines }) more
    go true false e = failed-IsRouted s m g.machines g.sockets g.connections alone h
    go true true e =
        let rest =
          updated-IsLive s.connection_id
            (λ t. record t { authenticated = true; last_heartbeat = some now }) g.machines
            (set_unrevoked true m g.machines) g.sockets (remove (routes_to m) g.connections)
            (λ t. refl) (λ t e. e) (λ i. unrevoked-IsOnline m i g.machines)
            (All-remove (IsLive g.machines g.sockets) (routes_to m) g.connections h) in
        (
          (
            any-update (λ s. s.connection_id) (has_connection s.connection_id)
                  (λ t. record t { authenticated = true; last_heartbeat = some now })
                  s.connection_id g.sockets (λ t. refl)
                ∙ there,
            λ ready. set_unrevoked-IsOnline m g.machines e,
          ),
          rest,
        )
