-- ===== src/Pool/Connections.antt =====
-- raft/RaftConnectionPool.cpp. Each method holds the mutex, so it is one step on the members. A
-- descriptor is never negative: `none` stands for -1.
use yolo_server.Prelude.{
  ℕ, zero, suc, ℤ, pos, Bool, true, false, not, Option, none, some, Text, List, [], ◌∷◌, ◌++◌, ltb,
  if◌then◌else◌, length, text_eq,
}
use yolo_server.Prelude.Assoc.{Assoc, lookup, insert, erase, text_key, nat_key}
use yolo_server.Pool.Net.{Net, Peek, closed, would_block, failed, readable}

pub record ConnectionInfo : Type 0 where
  pub fd : ℕ
  pub host : Text
  pub port : ℤ
  pub last_used : ℕ
  pub in_use : Bool

-- The members m_connectionPools, m_fdToPeerMap and m_running, at first empty and false.
pub record RaftConnectionPool : Type 0 where
  pub connection_pools : Assoc Text (List ConnectionInfo)
  pub fd_to_peer_map : Assoc ℕ Text
  pub running : Bool

abbrev pub max_connections_per_peer : ℕ
max_connections_per_peer = 5

abbrev pub new_pool : RaftConnectionPool
new_pool = record { connection_pools = []; fd_to_peer_map = []; running = false }

-- The queue of a peer; a peer without one has no connection either.
abbrev pub or_empty : Option (List ConnectionInfo) → List ConnectionInfo
or_empty none = []
or_empty (some q) = q

unfoldable pub queue_of : Text → RaftConnectionPool → List ConnectionInfo
queue_of peer p = or_empty (lookup peer p.connection_pools)

unfoldable pub set_queue : Text → List ConnectionInfo → RaftConnectionPool → RaftConnectionPool
set_queue peer q p = record p { connection_pools = insert peer q p.connection_pools }

-- m_fdToPeerMap.erase(fd)
unfoldable pub forget : ℕ → RaftConnectionPool → RaftConnectionPool
forget fd p = record p { fd_to_peer_map = erase fd p.fd_to_peer_map }

-- What releaseConnection queues.
abbrev pub released : ℕ → ℕ → ConnectionInfo
released fd now = record { fd = fd; host = []; port = pos 0; last_used = now; in_use = false }

abbrev pub owned_by : Option Text → Text → Bool
owned_by none peer = false
owned_by (some owner) peer = text_eq owner peer

-- isConnectionValid, on what recv returned.
abbrev pub is_valid : Peek → Bool
is_valid closed = false
is_valid would_block = true
is_valid failed = false
is_valid readable = true

module _ (N : Net) where
  open N use {World, now, sleep_ms, open_socket, set_nonblocking, is_address, connect, peek, close}

  -- The attempts of createConnection.
  unfoldable pub connect_loop : ℕ → ℕ → Text → ℤ → World → Bool × World
  connect_loop zero fd host port w = (false, w)
  connect_loop (suc attempts) fd host port w =
      let (ok, w1) = connect fd host port w in
      let rest = connect_loop attempts fd host port (sleep_ms 100 w1) in
      if ok then (true, w1) else rest

  unfoldable pub connect_opened : ℕ → Text → ℤ → World → Option ℕ × World
  connect_opened fd host port w =
      let w1 = set_nonblocking fd w in
      let (connected, w2) = connect_loop 3 fd host port w1 in
      if not (is_address host)
      then (none, close fd w1)
      else if not connected
      then (none, close fd w2)
      else (some fd, w2)

  -- createConnection
  unfoldable pub on_socket : Text → ℤ → Option ℕ × World → Option ℕ × World
  on_socket host port (none, w) = (none, w)
  on_socket host port (some fd, w) = connect_opened fd host port w

  unfoldable pub create_connection : Text → ℤ → World → Option ℕ × World
  create_connection host port w = on_socket host port (open_socket w)

  -- The second half of getConnection: a new connection, tracked for the peer.
  unfoldable pub track :
      Text → RaftConnectionPool → Option ℕ × World → Option ℕ × RaftConnectionPool × World
  track peer p (none, w) = (none, p, w)
  track peer p (some fd, w) =
      (some fd, record p { fd_to_peer_map = insert fd peer p.fd_to_peer_map }, (now w).1)

  unfoldable pub get_new :
      Text → Text → ℤ → RaftConnectionPool → World → Option ℕ × RaftConnectionPool × World
  get_new peer host port p w = track peer p (create_connection host port w)

  -- getConnection
  unfoldable pub get_from :
      Text
      → Text
      → ℤ
      → List ConnectionInfo
      → RaftConnectionPool
      → World
      → Option ℕ × RaftConnectionPool × World
  get_from peer host port [] p w = get_new peer host port p w
  get_from peer host port (c ∷ cs) p w =
      let (r, w1) = peek c.fd w in
      if is_valid r
      then (some c.fd, set_queue peer cs p, (now w1).1)
      else get_new peer host port (forget c.fd (set_queue peer cs p)) (close c.fd w1)

  unfoldable pub get_connection :
      Text → Text → ℤ → RaftConnectionPool → World → Option ℕ × RaftConnectionPool × World
  get_connection peer host port p w = get_from peer host port (queue_of peer p) p w

  -- The end of releaseConnection, for a valid connection of the peer.
  unfoldable pub put_back : Text → ℕ → RaftConnectionPool → World → RaftConnectionPool × World
  put_back peer fd p w =
      let q = queue_of peer p in
      let (t, w1) = now w in
      if ltb (length q) max_connections_per_peer
      then (set_queue peer (q ++ released fd t ∷ []) p, w1)
      else (forget fd (set_queue peer q p), close fd w)

  -- releaseConnection
  unfoldable pub release_connection :
      Text → ℕ → RaftConnectionPool → World → RaftConnectionPool × World
  release_connection peer fd p w =
      let (r, w1) = peek fd w in
      if not (owned_by (lookup fd p.fd_to_peer_map) peer)
      then (p, close fd w)
      else if not (is_valid r)
      then (forget fd p, close fd w1)
      else put_back peer fd p w1

  -- Closing what is queued, and forgetting it.
  unfoldable pub close_queue :
      List ConnectionInfo → RaftConnectionPool → World → RaftConnectionPool × World
  close_queue [] p w = (p, w)
  close_queue (c ∷ cs) p w = close_queue cs (forget c.fd p) (close c.fd w)

  -- closePeerConnections
  unfoldable pub close_peer_connections :
      Text → RaftConnectionPool → World → RaftConnectionPool × World
  close_peer_connections peer p w =
      let (p1, w1) = close_queue (queue_of peer p) p w in
      (record p1 { connection_pools = erase peer p1.connection_pools }, w1)
