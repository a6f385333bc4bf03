-- ===== src/Pool/Examples.antt =====
-- The theorems on raft/RaftConnectionPool.cpp at concrete pools.
use yolo_server.Prelude.{true, ◌∷◌, pos, [], arith}
use yolo_server.Prelude.Assoc.{lookup, text_key}
use yolo_server.Pool.Connections.{
  set_queue, released, RaftConnectionPool, queue_of, new_pool, get_connection, release_connection,
}
use yolo_server.Pool.Invariant.{NotQueued}
use yolo_server.Pool.Getting.{Got, get_connection-Got}
use yolo_server.Pool.Releasing.{Released, release_connection-Released}
use yolo_server.Pool.Tests.{
  system, system-Descriptors, peer, host, new_pool-IsSound, in_use, in_use-IsSound,
}

get_connection-Got_example :
    Got system-Descriptors peer (get_connection system peer host (pos 8081) new_pool 3)
get_connection-Got_example =
    get_connection-Got system-Descriptors peer host (pos 8081) new_pool 3 (new_pool-IsSound 3)

three-NotQueued : NotQueued 3 in_use
unfolding queue_of lookup
three-NotQueued p = tt

release_connection-Released_example :
    Released system-Descriptors peer 3 in_use (release_connection system peer 3 in_use 4)
release_connection-Released_example =
    release_connection-Released system-Descriptors peer 3 in_use 4 three-NotQueued (omega arith)
      (in_use-IsSound 4)

-- A pool that runs, with one connection in its queue.
abbrev queued : RaftConnectionPool
queued = set_queue peer (released 3 1000 ∷ []) (record in_use { running = true })
