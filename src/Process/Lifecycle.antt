-- ===== src/Process/Lifecycle.antt =====
-- server/Server.cpp: the members, the whole constructor, setupSocket and stop.
use yolo_server.Prelude.{
  ℕ, ℤ, pos, Bool, true, false, not, Option, none, some, ◌>>=◌, List, [], codes, if◌then◌else◌,
}
use yolo_server.Host.{Host, host_net, host_dialer}
use yolo_server.Config.Store.{Config, get_string, get_int}
use yolo_server.Cluster.Router.{NodeInfo}
use yolo_server.Pool.Connections.{RaftConnectionPool, new_pool}
use yolo_server.Raft.Types.{RaftNode}
use yolo_server.Storage.RocksDbStorage.{RocksDbStorage}
use yolo_server.Server.Startup.{load_cluster}
use yolo_server.Process.Listener.{Listener}
use yolo_server.Process.RaftLife.{stop_raft}

-- The members, with the pool of the RaftNode, the instance of RocksDBStorage, the descriptors of the
-- tasks that were submitted to the thread pool, and the machine.
pub record Server (H : Host) : Type 0 where
  pub running : Bool
  pub listen_fd : Option ℕ
  pub epoll_fd : Option ℕ
  pub port : ℤ
  pub self : NodeInfo
  pub nodes : List NodeInfo
  pub raft_node : Option RaftNode
  pub pool : RaftConnectionPool
  pub storage : RocksDbStorage
  pub submitted : List ℕ
  pub world : H.World

-- m_self; its flag is never set and never read.
unfoldable pub self_of : Config → NodeInfo
self_of config = record {
  id = get_string (codes "server.id") [] config;
  host = get_string (codes "server.host") [] config;
  port = get_int (codes "server.port") (pos 9000) config;
  healthy = false;
}

module _ {H : Host} where
  abbrev pub at_world : Server H → H.World → Server H
  at_world s w = record s { world = w }

  abbrev pub loaded : Config → List NodeInfo × H.World → Server H
  loaded config (nodes, w) = record {
    running = false;
    listen_fd = none;
    epoll_fd = none;
    port = get_int (codes "server.port") (pos 9000) config;
    self = self_of config;
    nodes = nodes;
    raft_node = none;
    pool = new_pool;
    storage = record { is_open = false };
    submitted = [];
    world = w;
  }

  -- The constructor; `none` is the undefined behaviour of checkNodeHealth.
  unfoldable pub new_server : Config → H.World → Option (Server H)
  new_server config w = load_cluster (host_dialer H) config w >>= λ r. some (loaded config r)

  module _ (L : Listener H) where
    open L use {reuse_address, bind, listen, epoll_create, epoll_add}

    -- setupSocket, from the end: the epoll descriptor, once there is one.
    unfoldable pub watch : ℕ → Option ℕ × H.World → Server H → Bool × Server H
    watch fd (none, w) s = (false, at_world (record s { epoll_fd = none }) w)
    watch fd (some e, w) s =
        let (added, w1) = epoll_add e fd w in
        let s1 = record s { epoll_fd = some e } in
        if added then (true, at_world s1 w1) else (false, at_world s1 (H.close e w1))

    unfoldable pub open_port : ℕ → Server H → Bool × Server H
    open_port fd s =
        let (bound, w1) = bind fd s.port (reuse_address fd (H.set_nonblocking fd s.world)) in
        let (listens, w2) = listen fd w1 in
        let watched = watch fd (epoll_create w2) s in
        if not bound
        then (false, at_world s w1)
        else if not listens
        then (false, at_world s w2)
        else watched

    unfoldable pub with_socket : Option ℕ × H.World → Server H → Bool × Server H
    with_socket (none, w) s = (false, at_world (record s { listen_fd = none }) w)
    with_socket (some fd, w) s = open_port fd (at_world (record s { listen_fd = some fd }) w)

    -- setupSocket
    unfoldable pub setup_socket : Server H → Bool × Server H
    setup_socket s = with_socket (H.open_socket s.world) s

  unfoldable pub stop_node : Option RaftNode → Server H → Server H
  stop_node none s = s
  stop_node (some n) s =
      let (n1, p, w) = stop_raft (host_net H) n s.pool s.world in
      record s { raft_node = some n1; pool = p; world = w }

  abbrev pub close_if : Option ℕ → Server H → Server H
  close_if none s = s
  close_if (some fd) s = at_world s (H.close fd s.world)

  unfoldable pub close_own : Server H → Server H
  close_own s =
      let s1 = record (close_if s.epoll_fd s) { epoll_fd = none } in
      record (close_if s1.listen_fd s1) { listen_fd = none }

  -- stop
  unfoldable pub stop_server : Server H → Server H
  stop_server s =
      if not s.running then s else close_own (stop_node s.raft_node (record s { running = false }))

  -- The destructor.
  unfoldable pub destroy_server : Server H → Server H
  unfolding stop_server
  destroy_server s = let stopped = stop_server s in if s.running then stopped else s
