-- ===== src/Process/RaftLife.antt =====
-- start and stop of raft/RaftNode.cpp, on the node and its pool. The threads that start creates run
-- election_tick and heartbeat_round; that stop joins them is no step.
use yolo_server.Prelude.{true, false, not, if◌then◌else◌}
use yolo_server.Pool.Net.{Net}
use yolo_server.Pool.Connections.{RaftConnectionPool}
use yolo_server.Pool.Cleanup.{start, stop}
use yolo_server.Raft.Types.{RaftNode}

unfoldable pub start_raft : RaftNode → RaftConnectionPool → RaftNode × RaftConnectionPool
start_raft n p = if n.running then (n, p) else (record n { running = true }, start p)

module _ (N : Net) where
  open N use {World}

  unfoldable pub stop_raft :
      RaftNode → RaftConnectionPool → World → RaftNode × RaftConnectionPool × World
  stop_raft n p w =
      let (p1, w1) = stop N p w in
      if not n.running then (n, p, w) else (record n { running = false }, p1, w1)
