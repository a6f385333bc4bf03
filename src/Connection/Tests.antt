-- ===== src/Connection/Tests.antt =====
-- A machine in memory, and runs of server/Connection.cpp over it. All sockets share one inbox and one
-- outbox.
use yolo_server.Prelude.{
  refl, sym, ap, true, Option, some, pos, Text, [], ◌∷◌, ◌++◌, arith, length, take, drop,
  length-take, take_whole, codes,
}
use yolo_server.Prelude.Assoc.{Assoc, lookup, insert, text_key}
use yolo_server.Host.{Host}
use yolo_server.Pool.Net.{would_block}
use yolo_server.Cluster.Router.{NodeInfo}
use yolo_server.Raft.Types.{RaftNode}
use yolo_server.Storage.Memory.{memory-IsDurable, status_of}
use yolo_server.Connection.State.{Connection}
use yolo_server.Connection.Machine.{IsReliable}

pub record Machine : Type 0 where
  pub inbox : Text
  pub outbox : Text
  pub contents : Assoc Text Text

abbrev pub machine : Host
machine = record {
  World = Machine;
  now = λ w. (1000, w);
  draw_timeout = λ w. (200, w);
  timeout_range = λ w. (omega arith, omega arith);
  sleep_ms = λ ms w. w;
  open_socket = λ w. (some 7, w);
  set_nonblocking = λ fd w. w;
  set_timeouts = λ w fd. w;
  is_address = λ host. true;
  connect = λ fd host port w. (true, w);
  recv = λ w fd len. (some (take len w.inbox), record w { inbox = drop len w.inbox });
  recv_some = λ w fd len. (some (take len w.inbox), record w { inbox = drop len w.inbox });
  send = λ w fd bytes. (some (length bytes), record w { outbox = w.outbox ++ bytes });
  peek = λ fd w. (would_block, w);
  close = λ fd w. w;
  create_directories = λ path w. w;
  open_db = λ path w. (true, w);
  put = λ k v w. (true, record w { contents = insert k v w.contents });
  get = λ k w. (status_of (lookup k w.contents), w);
}

abbrev pub machine-IsReliable : IsReliable machine
machine-IsReliable = record {
  stream = record {
    pending = λ w fd. w.inbox;
    sent = λ w fd. w.outbox;
    send_sent = λ w fd bytes. ap (λ xs. w.outbox ++ xs) (sym (take_whole bytes));
    send_le = λ w fd bytes n e. ground (arith, e);
    recv_le = λ w fd len. omega (arith, length-take len w.inbox);
    recv_bytes = λ w fd len h. refl;
    recv_rest = λ w fd len h. refl;
  };
  durable = record {
    stored = λ w k. memory-IsDurable.stored w.contents k;
    put_same = λ k v w. memory-IsDurable.put_same k v w.contents;
    put_other = λ k v j w. memory-IsDurable.put_other k v j w.contents;
    put_failed = λ k v w. memory-IsDurable.put_failed k v w.contents;
    get_value = λ k w. memory-IsDurable.get_value k w.contents;
    get_keeps = λ k j w. memory-IsDurable.get_keeps k j w.contents;
  };
  send_all = λ w fd bytes. ground arith;
  put_ok = λ k v w. refl;
  recv_stored = λ w fd len k. refl;
  recv_sent = λ w fd len other. refl;
  send_stored = λ w fd bytes k. refl;
  send_pending = λ w fd bytes other. refl;
  put_sent = λ k v w fd. refl;
  put_pending = λ k v w fd. refl;
  get_sent = λ k w fd. refl;
  get_pending = λ k w fd. refl;
}

-- A machine with these bytes in front of its sockets.
abbrev pub with_inbox : Text → Machine
with_inbox bytes = record { inbox = bytes; outbox = []; contents = [] }

abbrev pub here : NodeInfo
here = record { id = codes "node1"; host = codes "127.0.0.1"; port = pos 8080; healthy = true }

-- A server that knows itself only.
abbrev pub alone : Option RaftNode → Machine → Connection machine
alone node w = record {
  fd = 4;
  nodes = here ∷ [];
  self = here;
  raft_node = node;
  storage = record { is_open = true };
  world = w;
}
