-- ===== src/Process/Accepting.antt =====
-- server/Server.cpp: acceptLoop and start. The fuel of accept_loop is the number of its rounds, that
-- of accept_all the number of clients that one round accepts, at most; a machine may let both go on
-- for ever.
use yolo_server.Prelude.{
  ℕ, zero, suc, Bool, true, false, not, Option, none, some, Text, List, [], ◌∷◌, ◌++◌, ◌==◌, codes,
  text_eq, if◌then◌else◌,
}
use yolo_server.Prelude.Exec.{Exec, Outcome, pure, lift, ◌>>=◌, ◌>>◌}
use yolo_server.Host.{Host, host_database}
use yolo_server.Cluster.Router.{NodeInfo}
use yolo_server.Connection.Raft.{node_env}
use yolo_server.Pool.Connections.{new_pool}
use yolo_server.Raft.Types.{RaftNode}
use yolo_server.Raft.Node.{init, set_peer_address}
use yolo_server.Storage.RocksDbStorage.{RocksDbStorage, open_storage}
use yolo_server.Process.Listener.{Listener, Wait, timed_out, interrupted, wait_failed, ready}
use yolo_server.Process.RaftLife.{start_raft}
use yolo_server.Process.Lifecycle.{Server, at_world, setup_socket}

-- The nodes of the router but this one.
unfoldable pub others : NodeInfo → List NodeInfo → List NodeInfo
others self [] = []
others self (n ∷ ns) = let rest = others self ns in if text_eq n.id self.id then rest else n ∷ rest

abbrev pub ids_of : List NodeInfo → List Text
ids_of [] = []
ids_of (n ∷ ns) = n.id ∷ ids_of ns

unfoldable pub set_addresses : List NodeInfo → RaftNode → RaftNode
set_addresses [] node = node
set_addresses (n ∷ ns) node = set_addresses ns (set_peer_address node n.id n.host n.port)

module _ {H : Host} where
  -- start: the RaftNode with its peers and their addresses, started.
  unfoldable pub create_raft : Server H → Unit {0} × Server H
  create_raft s =
      let peers = others s.self s.nodes in
      let (node, w) = init (node_env H) s.self.id (ids_of peers) s.world in
      let (started, pool) = start_raft (set_addresses peers node) new_pool in
      (tt, record s { raft_node = some started; pool = pool; world = w })

  abbrev pub opened : Server H → Outcome Bool × RocksDbStorage × H.World → Outcome Bool × Server H
  opened s (result, db, w) = (result, record s { storage = db; world = w })

  -- RocksDBStorage::instance().open(dbpath)
  unfoldable pub open_database : Exec (Server H) Bool
  open_database s = opened s (
      open_storage (host_database H) (codes "data/" ++ (s.self.id ++ codes "/rocksdb")) s.storage
        s.world)

  module _ (L : Listener H) where
    open L use {epoll_wait, accept}

    abbrev pub admit_client : ℕ → H.World → Server H → Server H
    admit_client fd w s = record s {
      submitted = s.submitted ++ fd ∷ [];
      world = H.set_nonblocking fd w;
    }

    -- The inner loop of acceptLoop: true once accept has returned -1.
    unfoldable pub accept_all : ℕ → Server H → Bool × Server H
    accept_all zero s = (false, s)
    accept_all (suc fuel) s = elim (accept s.listen_fd s.world).0 [
      | none ↦ (true, at_world s (accept s.listen_fd s.world).1)
      | some fd ↦ accept_all fuel (admit_client fd (accept s.listen_fd s.world).1 s)
    ]

    -- events[i].data.fd == m_listen_fd
    abbrev pub is_listener : ℕ → Option ℕ → Bool
    is_listener fd none = false
    is_listener fd (some l) = fd == l

    -- The events of one epoll_wait; false when the fuel is used up.
    unfoldable pub handle_events : ℕ → List ℕ → Server H → Bool × Server H
    handle_events fuel [] s = (true, s)
    handle_events fuel (fd ∷ fds) s =
        let (done, s1) = if is_listener fd s.listen_fd then accept_all fuel s else (true, s) in
        let rest = handle_events fuel fds s1 in if done then rest else (false, s1)

    unfoldable pub on_wait : ℕ → (Server H → Bool × Server H) → Wait → Server H → Bool × Server H
    on_wait fuel again timed_out s = again s
    on_wait fuel again interrupted s = again s
    on_wait fuel again wait_failed s = (true, s)
    on_wait fuel again (ready fds) s =
        let (done, s1) = handle_events fuel fds s in
        let rest = again s1 in if done then rest else (false, s1)

    -- acceptLoop: true once the loop has ended.
    unfoldable pub accept_loop : ℕ → ℕ → Server H → Bool × Server H
    accept_loop clients zero s = (false, s)
    accept_loop clients (suc rounds) s =
        let (r, w) = epoll_wait s.epoll_fd s.world in
        let next = on_wait clients (accept_loop clients rounds) r (at_world s w) in
        if not s.running then (true, s) else next

    abbrev pub once_ended : Bool → Option Bool
    once_ended true = some true
    once_ended false = none

    unfoldable pub after_open : ℕ → ℕ → Bool → Exec (Server H) (Option Bool)
    after_open clients rounds false = pure (some false)
    after_open clients rounds true = do
      lift create_raft
      lift (λ s. (tt, record s { running = true }))
      ended ← lift (accept_loop clients rounds)
      pure (once_ended ended)

    unfoldable pub after_setup : ℕ → ℕ → Bool → Exec (Server H) (Option Bool)
    after_setup clients rounds false = pure (some false)
    after_setup clients rounds true = do is_open ← open_database; after_open clients rounds is_open

    -- start; `none` when the fuel is used up and acceptLoop goes on.
    unfoldable pub start_server : ℕ → ℕ → Exec (Server H) (Option Bool)
    start_server clients rounds = do
      set_up ← lift (setup_socket L)
      after_setup clients rounds set_up
