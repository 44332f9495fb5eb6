-- ===== src/Server/GatewayTests.antt =====
-- A Machine that connects a second time, and the close of its first socket.
use odyshell.Base.{
  ◌≡◌, refl, Bool, true, false, some, [], ◌∷◌, String, ◌==◌, string_discrete, any, find, update,
  remove, HasUniqueKeys,
}
use odyshell.Server.Gateway.{
  MachineRow, Socket, Authenticate, Gateway, open_socket, begin_authentication, enter, leave,
  is_online, close_socket, set_status, set_unrevoked,
}
use odyshell.Server.Gateway.Routes.{IsOnline}
use odyshell.Server.Gateway.Connecting.{machine_of}
use odyshell.Server.Gateway.Reaching.{
  Reached, starts, opens, begins, enters, leaves, is_online-IsOnline,
}

abbrev laptop : MachineRow
laptop = record {
  machine_id = "laptop";
  public_key = "key";
  organization_id = "acme";
  revoked = false;
  online = false;
}

abbrev signed : (public_key connection_id nonce signature : String) → Bool
signed public_key connection_id nonce signature = signature == nonce

abbrev hello : Authenticate
hello = record {
  machine_id = "laptop";
  signature = "n1";
  compatible = true;
  organization_id = "acme";
}

abbrev socket : String → String → Socket
socket connection_id nonce = record {
  connection_id = connection_id;
  nonce = nonce;
  ready = true;
  machine_id = some "laptop";
  control_organization_id = "acme";
  organization_id = "acme";
  authenticated = true;
  last_heartbeat = some 0;
}

abbrev first : Gateway
first = enter (socket "c1" "n1") "laptop" laptop 5 true (
    begin_authentication signed (socket "c1" "n1") hello (
      open_socket "c1" "n1"
        (record { machines = laptop ∷ []; sockets = []; connections = []; calls = [] })))

abbrev second : Gateway
second =
    leave (socket "c1" "n1") "laptop"
      (enter (socket "c2" "n2") "laptop" laptop 9 true (open_socket "c2" "n2" first))

abbrev reached : Reached signed second
unfolding open_socket enter leave any find update remove close_socket begin_authentication
    set_status set_unrevoked string_discrete
reached = leaves (socket "c1" "n1") "laptop" (
    enters (socket "c2" "n2") "laptop" laptop 9 true refl (
      opens "c2" "n2" (
        enters (socket "c1" "n1") "laptop" laptop 5 true refl
          (begins (socket "c1" "n1") hello refl (opens "c1" "n1" (starts (laptop ∷ [])))))))

still_online : is_online "laptop" second ≡ true
unfolding is_online open_socket enter leave any find update remove close_socket begin_authentication
    set_status set_unrevoked string_discrete
still_online = refl

is_online-IsOnline_example :
    HasUniqueKeys machine_of second.connections
    × ((machine_id : String)
        → is_online machine_id second ≡ true
        → IsOnline machine_id second.machines)
is_online-IsOnline_example = is_online-IsOnline signed second reached
