-- ===== src/Process/Doors.antt =====
-- The theorems on acceptLoop, start and stop of server/Server.cpp at small machines.
use mathlib.Core.Option.{none-ne-some, some-injective}
use yolo_server.Prelude.{
  ℕ, ◌+◌, ◌<◌, append-nil, ◌≡◌, refl, sym, ap, true, false, none, some, Option, pos, List, [], ◌∷◌,
  ◌++◌, arith, length,
}
use yolo_server.Prelude.Exec.{returns}
use yolo_server.Host.{Host}
use yolo_server.Pool.Net.{would_block}
use yolo_server.Pool.Connections.{new_pool}
use yolo_server.Storage.Database.{not_found}
use yolo_server.Connection.Tests
use yolo_server.Connection.TwoWires.{wires, answered, wires-OpenFiles}
use yolo_server.Process.Listener.{Listener, ready}
use yolo_server.Process.Lifecycle.{
  Server, stop_server, destroy_server, setup_socket, with_socket, open_port,
}
use yolo_server.Process.Accepting.{accept_all, accept_loop, start_server}
use yolo_server.Process.Queue.{
  HasAccepted, AreFinite, Ended, AllServed, accept_all-Ended, accept_loop-AllServed,
}
use yolo_server.Process.Failing.{LeavesOpen, failed_start_leaks}

-- The clients that wait at the door, those that were let in, and those that come next.
record Door : Type 0 where
  queue : List ℕ
  taken : List ℕ
  coming : List ℕ

abbrev doors : Host
doors = record {
  World = Door;
  now = λ w. (1000, w);
  draw_timeout = λ w. (200, w);
  timeout_range = λ w. (omega arith, omega arith);
  sleep_ms = λ ms w. w;
  open_socket = λ w. (some 5, w);
  set_nonblocking = λ fd w. w;
  set_timeouts = λ w fd. w;
  is_address = λ host. true;
  connect = λ fd host port w. (true, w);
  recv = λ w fd len. (none, w);
  recv_some = λ w fd len. (none, w);
  send = λ w fd bytes. (some (length bytes), w);
  peek = λ fd w. (would_block, w);
  close = λ fd w. w;
  create_directories = λ path w. w;
  open_db = λ path w. (true, w);
  put = λ k v w. (true, w);
  get = λ k w. (not_found, w);
}

abbrev front : List ℕ → Option ℕ
front [] = none
front (c ∷ cs) = some c

abbrev behind : List ℕ → List ℕ
behind [] = []
behind (c ∷ cs) = cs

abbrev given : List ℕ → List ℕ
given [] = []
given (c ∷ cs) = c ∷ []

abbrev door_listener : Listener doors
door_listener = record {
  reuse_address = λ fd w. w;
  bind = λ fd port w. (true, w);
  listen = λ fd w. (true, w);
  epoll_create = λ w. (some 6, w);
  epoll_add = λ e fd w. (true, w);
  epoll_wait = λ e w. (ready (5 ∷ []), record w { queue = w.queue ++ w.coming; coming = [] });
  accept = λ fd w.
      (front w.queue, record w { queue = behind w.queue; taken = w.taken ++ given w.queue });
}

front-some : (came cs : List ℕ) (c : ℕ) → front cs ≡ some c → came ++ given cs ≡ came ++ c ∷ []
front-some came [] c e = absurd (none-ne-some c e)
front-some came (d ∷ cs) c e = ap (λ x. came ++ x ∷ []) (some-injective d c e)

front-none : (came cs : List ℕ) → front cs ≡ none → came ++ given cs ≡ came
front-none came [] e = append-nil came
front-none came (d ∷ cs) e = absurd (none-ne-some d (sym e))

length-behind :
    (cs : List ℕ) (c coming : ℕ)
    → front cs ≡ some c
    → length (behind cs) + coming < length cs + coming
length-behind [] c coming e = absurd (none-ne-some c e)
length-behind (d ∷ cs) c coming e = omega arith

abbrev door_listener-HasAccepted : HasAccepted door_listener
door_listener-HasAccepted = record {
  accepted = λ w. w.taken;
  accept_some = λ fd w c e. front-some w.taken w.queue c e;
  accept_none = λ fd w e. front-none w.taken w.queue e;
  nonblocking_same = λ fd w. refl;
  epoll_same = λ e w. refl;
}

abbrev door_listener-AreFinite : AreFinite door_listener
door_listener-AreFinite = record {
  left = λ w. length w.queue + length w.coming;
  accept_left = λ fd w c e. length-behind w.queue c (length w.coming) e;
  nonblocking_left = λ fd w. omega arith;
}

-- Two clients wait, and a third one comes.
abbrev host_server : Server doors
host_server = record {
  running = true;
  listen_fd = some 5;
  epoll_fd = some 6;
  port = pos 8080;
  self = Tests.here;
  nodes = Tests.here ∷ [];
  raft_node = none;
  pool = new_pool;
  storage = record { is_open = true };
  submitted = [];
  world = record { queue = 21 ∷ 22 ∷ []; taken = []; coming = 23 ∷ [] };
}

accept_all-Ended_example :
    let (done, s') = accept_all door_listener 4 host_server in
    (done ≡ true) × Ended door_listener door_listener-HasAccepted 3 host_server s'
accept_all-Ended_example =
    accept_all-Ended door_listener door_listener-HasAccepted door_listener-AreFinite 4 host_server
      (omega arith)

accept_loop-AllServed_example :
    AllServed door_listener door_listener-HasAccepted (accept_loop door_listener 9 4 host_server).1
accept_loop-AllServed_example =
    accept_loop-AllServed door_listener door_listener-HasAccepted 9 4 host_server refl

-- A server on the machine of which descriptor 7 can be opened.
abbrev wired : Server wires
wired = record {
  running = true;
  listen_fd = some 7;
  epoll_fd = some 8;
  port = pos 8080;
  self = Tests.here;
  nodes = Tests.here ∷ [];
  raft_node = none;
  pool = new_pool;
  storage = record { is_open = true };
  submitted = 21 ∷ [];
  world = record answered { used = true };
}

-- The port is taken.
abbrev taken_port : Listener wires
taken_port = record {
  reuse_address = λ fd w. w;
  bind = λ fd port w. (false, w);
  listen = λ fd w. (true, w);
  epoll_create = λ w. (some 8, w);
  epoll_add = λ e fd w. (true, w);
  epoll_wait = λ e w. (ready [], w);
  accept = λ fd w. (none, w);
}

abbrev not_started : Server wires
not_started = record wired { running = false; listen_fd = none; epoll_fd = none; world = answered }

taken_port-LeavesOpen : LeavesOpen wires-OpenFiles taken_port
taken_port-LeavesOpen = record {
  socket_open = λ w f e. ground (arith, e);
  reuse_same = λ w f fd. refl;
  bind_same = λ w f port fd. refl;
  listen_same = λ w f fd. refl;
  epoll_fresh = λ w e made. ground (arith, made);
  epoll_open = λ w fd is. is;
  add_same = λ w e f fd. refl;
}

failed_start_leaks_example :
    let (result, s') = start_server taken_port 9 9 not_started in
    (result ≡ returns (some false))
    × (s'.listen_fd ≡ some 7)
    × (wires-OpenFiles.is_open s'.world 7 ≡ true)
    × (wires-OpenFiles.is_open (destroy_server (stop_server s')).world 7 ≡ true)
unfolding setup_socket with_socket open_port
failed_start_leaks_example =
    failed_start_leaks wires-OpenFiles taken_port taken_port-LeavesOpen not_started 9 9 7 refl refl
      refl
