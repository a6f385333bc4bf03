-- ===== src/Process/Tests.antt =====
-- Runs of main.cpp, and the theorem on start at a server with one peer.
use yolo_server.Prelude.{true, false, pos, some, none, ◌≡◌, refl, [], ◌∷◌, codes, text_eq}
use yolo_server.Cluster.Router.{NodeInfo, has_id}
use yolo_server.Cluster.Inserting.{IsDistinct}
use yolo_server.Pool.Connections.{new_pool}
use yolo_server.Raft.Types.{RaftNode}
use yolo_server.Connection.Tests.{machine, with_inbox, here}
use yolo_server.Process.Lifecycle.{Server}
use yolo_server.Process.Accepting.{others, create_raft}
use yolo_server.Process.Peers.{IsStarted, create_raft-IsStarted}
use yolo_server.Process.Main.{parse_config_path, config_in}

named :
    parse_config_path (codes "yolo" ∷ codes "-v" ∷ codes "--config" ∷ codes "a.conf" ∷ [])
    ≡ codes "a.conf"
unfolding parse_config_path config_in text_eq
named = refl

unnamed : parse_config_path (codes "yolo" ∷ codes "--config" ∷ []) ≡ codes "./config/server.conf"
unfolding parse_config_path config_in
unnamed = refl

abbrev pub peer : NodeInfo
peer = record { id = codes "node2"; host = codes "10.0.0.2"; port = pos 8081; healthy = true }

-- The first of two nodes, before start.
abbrev pub first : Server machine
first = record {
  running = false;
  listen_fd = none;
  epoll_fd = none;
  port = pos 8080;
  self = here;
  nodes = here ∷ peer ∷ [];
  raft_node = none;
  pool = new_pool;
  storage = record { is_open = true };
  submitted = [];
  world = with_inbox [];
}

pub two-IsDistinct : IsDistinct (here ∷ peer ∷ [])
unfolding has_id text_eq
two-IsDistinct = (refl, (refl, tt))

create_raft-IsStarted_example :
    (n : RaftNode) × ((create_raft first).1.raft_node ≡ some n)
    × IsStarted here (here ∷ peer ∷ []) n
create_raft-IsStarted_example = create_raft-IsStarted first two-IsDistinct

-- Its only peer is the second node.
one_peer : others here (here ∷ peer ∷ []) ≡ peer ∷ []
unfolding others text_eq
one_peer = refl
