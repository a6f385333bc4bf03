-- ===== src/Connection/TwoWires.antt =====
-- A machine with a client on descriptor 4 and one more socket, 7, on which the other node answers;
-- and the theorems on forwarding over it.
use yolo_server.Prelude.{
  ◌∷◌, not, ◌&&◌, ◌==◌, ◌≡◌, refl, sym, ap, Bool, true, false, none, some, pos, Text, [], ◌++◌,
  if◌then◌else◌, arith, length, take, drop, length-take, take_whole, codes,
}
use yolo_server.Prelude.Exec.{returns}
use yolo_server.Host.{Host, host_socket}
use yolo_server.Pool.Net.{would_block}
use yolo_server.Server.Socket.{IsStream}
use yolo_server.Server.Headers.{frame}
use yolo_server.Storage.Database.{not_found}
use yolo_server.Cluster.Router.{NodeInfo}
use yolo_server.Connection.State.{Connection}
use yolo_server.Connection.Forward.{forward_to_node}
use yolo_server.Connection.Handlers.{forward_request}
use yolo_server.Connection.Closing.{OpenFiles}
use yolo_server.Json.Toy.{toy}
use yolo_server.Connection.Loop.{serve}
use yolo_server.Connection.Ending.{HasQuietCalls, EndsClosed, serve-EndsClosed}
use yolo_server.Connection.Forwarding.{HasClient, Heard, forward_request-Heard}

pub record Wires : Type 0 where
  pub inbox : Text
  pub client : Text
  pub other : Text
  pub used : Bool

abbrev pub wires : Host
wires = record {
  World = Wires;
  now = λ w. (1000, w);
  draw_timeout = λ w. (200, w);
  timeout_range = λ w. (omega arith, omega arith);
  sleep_ms = λ ms w. w;
  open_socket = λ w. (if w.used then none else some 7, record w { used = true });
  set_nonblocking = λ fd w. w;
  set_timeouts = λ w fd. w;
  is_address = λ host. true;
  connect = λ fd host port w. (true, w);
  recv = λ w fd len. (some (take len w.inbox), record w { inbox = drop len w.inbox });
  recv_some = λ w fd len. (some (take len w.inbox), record w { inbox = drop len w.inbox });
  send = λ w fd bytes. (
    some (length bytes),
    record w {
      client = if fd == 4 then w.client ++ bytes else w.client;
      other = if fd == 4 then w.other else w.other ++ bytes;
    },
  );
  peek = λ fd w. (would_block, w);
  close = λ fd w. record w { used = w.used && not (fd == 7) };
  create_directories = λ path w. w;
  open_db = λ path w. (true, w);
  put = λ k v w. (true, w);
  get = λ k w. (not_found, w);
}

pub both :
    (b : Bool) (xs ys bytes : Text)
    → (if b then (if b then xs ++ bytes else xs) else (if b then ys else ys ++ bytes))
      ≡ (if b then xs else ys) ++ take (length bytes) bytes
both true xs ys bytes = ap (λ zs. xs ++ zs) (sym (take_whole bytes))
both false xs ys bytes = ap (λ zs. ys ++ zs) (sym (take_whole bytes))

abbrev pub wires-OpenFiles : OpenFiles wires
wires-OpenFiles = record {
  is_open = λ w fd. (fd == 7) && w.used;
  open_none = λ w fd e. ground (arith, e);
  open_fresh = λ w f e. ground (arith, e);
  open_other = λ w f fd e other. ground (arith, e, other);
  close_this = λ w f. ground arith;
  close_other = λ w f fd other. ground (arith, other);
  nonblocking_same = λ w f fd. refl;
  sleep_same = λ w ms fd. refl;
  connect_same = λ w f host port fd. refl;
  send_same = λ w f bytes fd. refl;
  recv_same = λ w f len fd. refl;
}

abbrev pub wires-IsStream : IsStream (host_socket wires)
wires-IsStream = record {
  pending = λ w fd. w.inbox;
  sent = λ w fd. if fd == 4 then w.client else w.other;
  send_sent = λ w fd bytes. both (fd == 4) w.client w.other bytes;
  send_le = λ w fd bytes n e. ground (arith, e);
  recv_le = λ w fd len. omega (arith, length-take len w.inbox);
  recv_bytes = λ w fd len h. refl;
  recv_rest = λ w fd len h. refl;
}

pub wires-HasClient : HasClient wires wires-IsStream 4
wires-HasClient = record {
  open_apart = λ w f e same. ground (arith, e, same);
  open_sent = λ w. refl;
  nonblocking_sent = λ w f. refl;
  sleep_sent = λ w ms. refl;
  connect_sent = λ w f host port. refl;
  send_other = λ w f bytes apart. ground (arith, apart);
  recv_sent = λ w f len. refl;
  close_sent = λ w f. refl;
}

abbrev pub there : NodeInfo
there = record { id = codes "node2"; host = codes "10.0.0.2"; port = pos 8081; healthy = true }

-- The other node has answered.
abbrev pub answered : Wires
answered = record { inbox = frame (codes "STORE OK"); client = []; other = []; used = false }

abbrev pub served : Connection wires
served = record {
  fd = 4;
  nodes = there ∷ [];
  self = record there { id = codes "node1" };
  raft_node = none;
  storage = record { is_open = true };
  world = answered;
}

forward_request-Heard_example :
    let (result, c1) =
      forward_request there
        (codes "STORE {}")
        (codes "ERROR failed to forward STORE request")
        served in
    (result ≡ returns tt)
    × Heard wires-IsStream wires-HasClient there
        (codes "STORE {}")
        (codes "ERROR failed to forward STORE request")
        answered
        (forward_to_node wires 4 there (codes "STORE {}") answered).0
        c1.world
forward_request-Heard_example =
    forward_request-Heard wires-IsStream served wires-HasClient there (codes "STORE {}")
      (codes "ERROR failed to forward STORE request")

wires-HasQuietCalls : HasQuietCalls wires wires-OpenFiles
wires-HasQuietCalls = record {
  put_same = λ w k v fd. refl;
  get_same = λ w k fd. refl;
  now_same = λ w fd. refl;
  draw_same = λ w fd. refl;
}

-- A client whose connection is on descriptor 7, and which sends one PING.
abbrev client_of_7 : Connection wires
client_of_7 = record served { fd = 7; world = record answered { inbox = frame (codes "PING") } }

serve-EndsClosed_example :
    EndsClosed wires-OpenFiles wires-HasQuietCalls client_of_7
      (serve (toy []) (λ key. 0) 2 client_of_7)
serve-EndsClosed_example =
    serve-EndsClosed wires-OpenFiles wires-HasQuietCalls (toy []) (λ key. 0) 2 client_of_7
