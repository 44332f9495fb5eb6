-- ===== src/Server/Gateway.antt =====
-- apps/server/src/gateway.ts: the class `ClientGateway`, over the rows of the Machines that its methods of
-- control-database.ts read and write. What runs in a Machine's queue is one step, since the queue runs
-- one operation at a time; what may happen to the socket meanwhile is an argument of the step. The test
-- of a signature is a parameter. The hooks called and the sockets closed are a list, the newest first; what
-- is sent, and the revocation of a Machine in the database, are left out.
pub mod Routes
pub mod Connecting
pub mod Entry
pub mod Reaching
use odyshell.Base.{
  ℕ, ◌-◌, Bool, true, false, not, ◌&&◌, ◌||◌, Option, none, some, List, [], ◌∷◌, String, ◌==◌,
  if◌then◌else◌, leb, any, find, update, remove,
}
use odyshell.Protocol.Messages.{ClientMessage}

pub record MachineRow : Type 0 where
  pub machine_id : String
  pub public_key : String
  pub organization_id : String
  pub revoked : Bool
  pub online : Bool

-- A socket with its `AuthState`. It is ready while its `readyState` is 1.
pub record Socket : Type 0 where
  pub connection_id : String
  pub nonce : String
  pub ready : Bool
  pub machine_id : Option String
  pub control_organization_id : String
  pub organization_id : String
  pub authenticated : Bool
  pub last_heartbeat : Option ℕ

pub record Route : Type 0 where
  pub machine_id : String
  pub connection_id : String

pub data Call : Type 0 where
  hook_authenticated : (machine_id control_organization_id : String) → Call
  hook_disconnected : (machine_id organization_id : String) → Call
  hook_message : (machine_id organization_id : String) → ClientMessage → Call
  hook_reconnected : (machine_id organization_id : String) → Call
  closed : (connection_id : String) (code : ℕ) → Call

pub record Gateway : Type 0 where
  pub machines : List MachineRow
  pub sockets : List Socket
  pub connections : List Route
  pub calls : List Call

pub record Authenticate : Type 0 where
  pub machine_id : String
  pub signature : String
  pub compatible : Bool
  pub organization_id : String

abbrev pub has_machine : String → MachineRow → Bool
has_machine i m = m.machine_id == i

abbrev pub has_connection : String → Socket → Bool
has_connection i s = s.connection_id == i

abbrev pub routes_to : String → Route → Bool
routes_to i r = r.machine_id == i

-- The status that `setMachineOnline`, `setMachineIncompatible` and `heartbeat` give a Machine that is not
-- revoked, and `setMachineOffline` any.
unfoldable pub set_status : Bool → String → List MachineRow → List MachineRow
set_status online i machines = update (has_machine i) (λ m. record m { online = online }) machines

abbrev pub unrevoked : String → MachineRow → Bool
unrevoked i m = has_machine i m && not m.revoked

unfoldable pub set_unrevoked : Bool → String → List MachineRow → List MachineRow
set_unrevoked online i machines = update (unrevoked i) (λ m. record m { online = online }) machines

-- `socket.close`
unfoldable pub close_socket : String → ℕ → Gateway → Gateway
close_socket i code g = record g {
  sockets = update (has_connection i) (λ s. record s { ready = false }) g.sockets;
  calls = closed i code ∷ g.calls;
}

-- An id that is taken opens nothing: it is a fresh UUID.
unfoldable pub open_socket : (connection_id nonce : String) → Gateway → Gateway
open_socket connection_id nonce g =
    if any (has_connection connection_id) g.sockets then g else record g {
      sockets =
          record {
            connection_id = connection_id;
            nonce = nonce;
            ready = true;
            machine_id = none;
            control_organization_id = "";
            organization_id = "";
            authenticated = false;
            last_heartbeat = none;
          }
          ∷ g.sockets;
    }

abbrev pub close_previous : String → Option Route → Gateway → Gateway
close_previous connection_id none g = g
close_previous connection_id (some previous) g =
    if previous.connection_id == connection_id
    then g
    else close_socket previous.connection_id 4003 g

-- `connections.set`
abbrev pub route : String → String → List Route → List Route
route machine_id connection_id routes =
    record { machine_id = machine_id; connection_id = connection_id }
    ∷ remove (routes_to machine_id) routes

abbrev pub call : Call → Gateway → Gateway
call c g = record g { calls = c ∷ g.calls }

abbrev pub connected : Socket → String → (now : ℕ) → (still_ready : Bool) → Gateway → Gateway
connected s machine_id now still_ready g =
    let online = record g { machines = set_unrevoked true machine_id g.machines } in
    if not (any (unrevoked machine_id) g.machines)
    then close_socket s.connection_id 4004 online
    else if not still_ready
    then record online {
      machines = set_status false machine_id online.machines;
      sockets = update (has_connection s.connection_id) (λ t. record t { ready = false }) g.sockets;
    }
    else call (hook_reconnected machine_id s.organization_id) (record online {
      connections = route machine_id s.connection_id g.connections;
      sockets =
          update (has_connection s.connection_id)
            (λ t. record t { authenticated = true; last_heartbeat = some now }) g.sockets;
    })

abbrev pub authority_holds : Option MachineRow → MachineRow → Bool
authority_holds none seen = false
authority_holds (some current) seen =
    (current.public_key == seen.public_key) && (current.organization_id == seen.organization_id)

abbrev pub is_revoked : Option MachineRow → Bool
is_revoked none = false
is_revoked (some m) = m.revoked

-- What `authenticate` runs in the Machine's queue; `seen` is the row that it read before. An error closes
-- the socket with the code 4002.
unfoldable pub enter :
    Socket
    → (machine_id : String) → (seen : MachineRow) → (now : ℕ) → (still_ready : Bool) → Gateway
    → Gateway
enter s machine_id seen now still_ready g =
    let current = find (has_machine machine_id) g.machines in
    if not s.ready
    then g
    else if not (authority_holds current seen)
    then close_socket s.connection_id 4002 g
    else if is_revoked current
    then close_socket s.connection_id 4004 g
    else connected s machine_id now still_ready (
        close_previous s.connection_id (find (routes_to machine_id) g.connections)
          (call (hook_authenticated machine_id seen.organization_id) g))

abbrev pub left : Socket → String → Option Route → Gateway → Gateway
left s machine_id none g = g
left s machine_id (some current) g =
    if not (current.connection_id == s.connection_id) then g else record g {
      connections = remove (routes_to machine_id) g.connections;
      machines = set_status false machine_id g.machines;
      calls =
          if s.organization_id == ""
          then g.calls
          else hook_disconnected machine_id s.organization_id ∷ g.calls;
    }

-- What the close of a socket runs in the Machine's queue
unfoldable pub leave : Socket → (machine_id : String) → Gateway → Gateway
leave s machine_id g = left s machine_id (find (routes_to machine_id) g.connections) g

abbrev pub disconnect_found : Option Route → Gateway → Gateway
disconnect_found none g = g
disconnect_found (some current) g =
    close_socket current.connection_id 4004
      (record g { connections = remove (routes_to current.machine_id) g.connections })

-- `disconnect`
unfoldable pub disconnect : String → Gateway → Gateway
disconnect machine_id g = disconnect_found (find (routes_to machine_id) g.connections) g

abbrev pub socket_ready : Option Socket → Bool
socket_ready none = false
socket_ready (some s) = s.ready

abbrev pub route_ready : Option Route → List Socket → Bool
route_ready none sockets = false
route_ready (some r) sockets = socket_ready (find (has_connection r.connection_id) sockets)

-- `isOnline`
unfoldable pub is_online : String → Gateway → Bool
is_online machine_id g = route_ready (find (routes_to machine_id) g.connections) g.sockets

-- The first half of `authenticate`. `verify` tests a signature by a public key; its message is
-- `odyshell:` with the connection's id and nonce.
module _ (verify : (public_key connection_id nonce signature : String) → Bool) where
  abbrev pub begin_with : Socket → Authenticate → Option MachineRow → Gateway → Gateway
  begin_with s message none g = close_socket s.connection_id 4002 g
  begin_with s message (some machine) g =
      if not (verify machine.public_key s.connection_id s.nonce message.signature)
      then close_socket s.connection_id 4002 g
      else if not message.compatible
      then close_socket s.connection_id 4005
          (record g { machines = set_unrevoked false message.machine_id g.machines })
      else record g {
        sockets =
            update (has_connection s.connection_id)
              (λ t. record t {
                machine_id = some message.machine_id;
                control_organization_id = machine.organization_id;
                organization_id = message.organization_id;
              })
              g.sockets;
      }

  unfoldable pub begin_authentication : Socket → Authenticate → Gateway → Gateway
  begin_authentication s message g =
      begin_with s message (find (has_machine message.machine_id) g.machines) g

-- Five minutes
abbrev pub heartbeat_interval : ℕ
heartbeat_interval = 300000

abbrev pub is_due : Option ℕ → ℕ → Bool
is_due none now = true
is_due (some last) now = leb heartbeat_interval (now - last)

-- The heartbeat of an authenticated socket, for the Machine `machine_id` that it names.
unfoldable pub heartbeat : Socket → (machine_id : String) → (now : ℕ) → Gateway → Gateway
heartbeat s machine_id now g =
    if is_due s.last_heartbeat now
    then record g {
      machines = set_unrevoked true machine_id g.machines;
      sockets =
          update (has_connection s.connection_id) (λ t. record t { last_heartbeat = some now })
            g.sockets;
    }
    else g

abbrev pub heard : Socket → Option String → Gateway → (String → Gateway) → Gateway
heard s none g handled = close_socket s.connection_id 4002 g
heard s (some machine_id) g handled =
    if s.authenticated then handled machine_id else close_socket s.connection_id 4002 g

-- `handleMessage`, of a heartbeat that names a Machine, and of a message on Sessions and Commands. One
-- that comes before the socket is authenticated, or names another Machine, is an error.
unfoldable pub handle_heartbeat : Socket → (named : String) → (now : ℕ) → Gateway → Gateway
handle_heartbeat s named now g = heard s s.machine_id g (λ machine_id.
    if named == machine_id then heartbeat s named now g else close_socket s.connection_id 4002 g)

unfoldable pub handle_message : Socket → ClientMessage → Gateway → Gateway
handle_message s message g =
    heard s s.machine_id g
      (λ machine_id. call (hook_message machine_id s.organization_id message) g)
