-- ===== src/Pool/Cleanup.antt =====
-- start, stop and cleanupLoop of raft/RaftConnectionPool.cpp.
use yolo_server.Prelude.{
  ℕ, ◌-◌, ◌/◌, Bool, true, false, not, Text, List, [], ◌∷◌, ◌++◌, ltb, if◌then◌else◌,
}
use yolo_server.Prelude.Assoc.{Assoc, text_key}
use yolo_server.Pool.Net.{Net}
use yolo_server.Pool.Connections.{
  ConnectionInfo, RaftConnectionPool, queue_of, set_queue, forget, is_valid,
}

abbrev pub connection_timeout : ℕ
connection_timeout = 300

-- elapsed > CONNECTION_TIMEOUT, in whole seconds; the clock is steady, and counts milliseconds.
abbrev pub is_expired : ℕ → ConnectionInfo → Bool
is_expired now c = ltb connection_timeout ((now - c.last_used) / 1000)

-- start; the thread that it creates runs cleanup_round.
unfoldable pub start : RaftConnectionPool → RaftConnectionPool
start p = if p.running then p else record p { running = true }

-- The peers whose queues the loops visit.
abbrev pub peers_of : Assoc Text (List ConnectionInfo) → List Text
peers_of [] = []
peers_of ((peer, q) ∷ m) = peer ∷ peers_of m

module _ (N : Net) where
  open N use {World, now, peek, close}

  -- The inner loop of cleanupLoop over what is left of a queue: newQueue, with the connections that
  -- stay.
  unfoldable pub sweep :
      ℕ
      → List ConnectionInfo
      → List ConnectionInfo
      → RaftConnectionPool
      → World
      → List ConnectionInfo × RaftConnectionPool × World
  sweep time [] kept p w = (kept, p, w)
  sweep time (c ∷ cs) kept p w =
      let (r, w1) = peek c.fd w in
      let gone_unseen = sweep time cs kept (forget c.fd p) (close c.fd w) in
      let gone = sweep time cs kept (forget c.fd p) (close c.fd w1) in
      let stays = sweep time cs (kept ++ c ∷ []) p w1 in
      if is_expired time c then gone_unseen else if not (is_valid r) then gone else stays

  -- One round of the outer loop.
  unfoldable pub sweep_peer : ℕ → Text → RaftConnectionPool → World → RaftConnectionPool × World
  sweep_peer time peer p w =
      let (kept, p1, w1) = sweep time (queue_of peer p) [] p w in (set_queue peer kept p1, w1)

  unfoldable pub sweep_peers :
      ℕ → List Text → RaftConnectionPool → World → RaftConnectionPool × World
  sweep_peers time [] p w = (p, w)
  sweep_peers time (peer ∷ peers) p w =
      let (p1, w1) = sweep_peer time peer p w in sweep_peers time peers p1 w1

  -- One round of cleanupLoop, once the wait is over; true if the loop goes on.
  unfoldable pub cleanup_round : RaftConnectionPool → World → Bool × RaftConnectionPool × World
  cleanup_round p w =
      let (time, w1) = now w in
      let (p1, w2) = sweep_peers time (peers_of p.connection_pools) p w1 in
      if not p.running then (false, p, w) else (true, p1, w2)

  -- The loops of stop.
  unfoldable pub close_fds : List ConnectionInfo → World → World
  close_fds [] w = w
  close_fds (c ∷ cs) w = close_fds cs (close c.fd w)

  unfoldable pub close_all : Assoc Text (List ConnectionInfo) → World → World
  close_all [] w = w
  close_all ((peer, q) ∷ m) w = close_all m (close_fds q w)

  -- stop; joining the thread changes nothing else.
  unfoldable pub stop : RaftConnectionPool → World → RaftConnectionPool × World
  stop p w = if not p.running then (p, w) else (
    record { connection_pools = []; fd_to_peer_map = []; running = false },
    close_all p.connection_pools w,
  )
