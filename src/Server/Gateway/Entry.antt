-- ===== src/Server/Gateway/Entry.antt =====
-- apps/server/src/gateway.ts: a Machine that connects, and the one before it.
use odyshell.Base.{
  ℕ, ◌≡◌, ◌∙◌, refl, sym, inl, inr, Bool, true, false, not, Option, none, some, List, [], ◌∷◌,
  String, ◌==◌, if◌then◌else◌, any, any-update, find, find-test, find-any, remove, arith, All-map,
  All-find_unique, All-not-any, HasUniqueKeys, remove-HasUniqueKeys, Bool-cases,
}
use odyshell.Server.Gateway.{
  MachineRow, Socket, Route, Gateway, has_machine, has_connection, routes_to, unrevoked,
  close_socket, close_previous, call, connected, enter, authority_holds, is_revoked,
  hook_authenticated,
}
use odyshell.Server.Gateway.Routes.{IsRouted, ready-closed, closed-IsRouted, previous-IsRouted}
use odyshell.Server.Gateway.Connecting.{machine_of, IsAlone, connected-IsRouted}

previous-IsAlone :
    (m c : String) (o : Option Route) (g : Gateway)
    → HasUniqueKeys machine_of g.connections
    → find (routes_to m) g.connections ≡ o
    → IsAlone m c (close_previous c o g).sockets g.connections
unfolding close_socket
previous-IsAlone m c none g unique e =
    All-map _ g.connections (λ r apart same. elim (apart same) [ ])
      (All-not-any machine_of m g.connections (find-any (routes_to m) g.connections e))
previous-IsAlone m c (some p) g unique e =
    All-map _ g.connections
      (λ r only same.
        let here : p.machine_id ≡ m =
          (let t = find-test (routes_to m) g.connections p e in ground arith) in
        let it : r ≡ p = only (same ∙ sym here) in
        elim (Bool-cases (p.connection_id == c)) [
          | inl own ↦ inl (rw it (equal p.connection_id own))
          | inr other ↦ rw (it, other) (inr (ready-closed p.connection_id g.sockets))
        ])
      (All-find_unique machine_of (routes_to m) g.connections p unique e)
  where
    equal : (i : String) → (i == c) ≡ true → i ≡ c
    equal i e = ground arith

any_removed : (p : Route → Bool) (xs : List Route) → any p (remove p xs) ≡ false
unfolding any remove
any_removed p [] = refl
any_removed p (x ∷ xs) = ground (arith, any_removed p xs)

connected-HasUniqueKeys :
    (s : Socket) (m : String) (now : ℕ) (still_ready : Bool) (g : Gateway)
    → HasUniqueKeys machine_of g.connections
    → HasUniqueKeys machine_of (connected s m now still_ready g).connections
unfolding close_socket
connected-HasUniqueKeys s m now still_ready g unique =
    elim (Bool-cases (any (unrevoked m) g.machines)) [
      | inr e ↦ rw e unique
      | inl e ↦ elim (Bool-cases still_ready) [
        | inr f ↦ rw (e, f) unique
        | inl f ↦
            rw (e, f)
              (
                any_removed (routes_to m) g.connections,
                remove-HasUniqueKeys machine_of (routes_to m) g.connections unique,
              )
      ]
    ]

previous-connections :
    (c : String) (o : Option Route) (g : Gateway)
    → (close_previous c o g).connections ≡ g.connections
unfolding close_socket
previous-connections c none g = refl
previous-connections c (some r) g = ground arith

previous-any :
    (c i : String) (o : Option Route) (g : Gateway)
    → any (has_connection i) g.sockets ≡ true
    → any (has_connection i) (close_previous c o g).sockets ≡ true
unfolding close_socket
previous-any c i none g h = h
previous-any c i (some r) g h = elim (Bool-cases (r.connection_id == c)) [
  | inl same ↦ rw same h
  | inr other ↦ rw other (
      any-update (λ s. s.connection_id) (has_connection r.connection_id)
        (λ t. record t { ready = false }) i g.sockets (λ t. refl)
      ∙ h)
]

-- What `authenticate` runs in the Machine's queue keeps that every connection has its socket, that the
-- database has the Machine of a connection as online while that socket is ready, and that a Machine has
-- one connection at most. The socket is one that was opened.
pub enter-IsRouted :
    (s : Socket) (machine_id : String) (seen : MachineRow) (now : ℕ) (still_ready : Bool)
    (g : Gateway)
    → any (has_connection s.connection_id) g.sockets ≡ true
    → HasUniqueKeys machine_of g.connections
    → IsRouted g
    → HasUniqueKeys machine_of (enter s machine_id seen now still_ready g).connections
      × IsRouted (enter s machine_id seen now still_ready g)
unfolding enter close_socket
enter-IsRouted s m seen now still g there unique h =
    go s.ready (authority_holds current seen) (is_revoked current)
  where
    current : Option MachineRow
    current = find (has_machine m) g.machines

    previous : Option Route
    previous = find (routes_to m) g.connections

    started : Gateway
    started =
        close_previous s.connection_id previous (call (hook_authenticated m seen.organization_id) g)

    go :
        (ready held revoked : Bool)
        → (let after : Gateway =
              (if not ready
                then g
                else if not held
                then close_socket s.connection_id 4002 g
                else if revoked
                then close_socket s.connection_id 4004 g
                else connected s m now still started) in
            HasUniqueKeys machine_of after.connections × IsRouted after)
    go false held revoked = (unique, h)
    go true false revoked = (unique, closed-IsRouted s.connection_id 4002 g h)
    go true true true = (unique, closed-IsRouted s.connection_id 4004 g h)
    go true true false =
        let same : started.connections ≡ g.connections =
          previous-connections s.connection_id previous
            (call (hook_authenticated m seen.organization_id) g) in
        let alone =
          previous-IsAlone m s.connection_id previous
            (call (hook_authenticated m seen.organization_id) g) unique refl in
        (
          connected-HasUniqueKeys s m now still started (rw same unique),
          connected-IsRouted s m now still started
              (previous-any s.connection_id s.connection_id previous
                (call (hook_authenticated m seen.organization_id) g) there)
              (rw same alone)
              (previous-IsRouted s.connection_id previous
                (call (hook_authenticated m seen.organization_id) g) h),
        )
