-- ===== src/Connection/State.antt =====
-- The members of the class in server/Connection.h, with what they point to: the nodes of the router,
-- the RaftNode, and the instance of RocksDBStorage. The machine is part of the state.
use yolo_server.Prelude.{ℕ, Bool, Option, none, some, Text, List}
use yolo_server.Prelude.Exec.{Exec, Outcome, fault, returns}
use yolo_server.Host.{Host, host_socket, host_database}
use yolo_server.Server.Protocol.{send_message}
use yolo_server.Cluster.Router.{NodeInfo}
use yolo_server.Raft.Types.{RaftNode}
use yolo_server.Storage.RocksDbStorage.{RocksDbStorage, put_value, get_value}

pub record Connection (H : Host) : Type 0 where
  pub fd : ℕ
  pub nodes : List NodeInfo
  pub self : NodeInfo
  pub raft_node : Option RaftNode
  pub storage : RocksDbStorage
  pub world : H.World

module _ {H : Host} where
  abbrev pub set_world : Connection H → H.World → Connection H
  set_world c w = record c { world = w }

  -- A call that works on the machine.
  abbrev pub on_world : {A : Type 0} → (H.World → A × H.World) → Exec (Connection H) A
  on_world f c = (returns (f c.world).0, set_world c (f c.world).1)

  abbrev pub or_null : {A : Type 0} → Connection H → Option (A × H.World) → Outcome A × Connection H
  or_null c none = (fault, c)
  or_null c (some (a, w)) = (returns a, set_world c w)

  -- Protocol::sendMessage(m_fd, ...), the result of which no handler reads.
  abbrev pub reply_with : Text → Exec (Connection H) Unit
  reply_with reply c = (returns tt, set_world c (send_message (host_socket H) c.fd reply c.world).1)

  abbrev pub put_in : Text → Text → Exec (Connection H) Bool
  put_in key value c = or_null c (put_value (host_database H) c.storage key value c.world)

  abbrev pub get_from_storage : Text → Exec (Connection H) (Option Text)
  get_from_storage key c = or_null c (get_value (host_database H) c.storage key c.world)
