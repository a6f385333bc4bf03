-- ===== src/Connection/Exchanging.antt =====
-- sendRequestVote and sendAppendEntries of raft/RaftNode.cpp on one server, and server/Connection.cpp
-- with the node that answers on another one.
use yolo_server.Prelude.{ℕ, ℤ, ◌≤◌, ◌≡◌, refl, Option, some, Text, [], ◌++◌, length}
use yolo_server.Prelude.Exec.{returns}
use yolo_server.Prelude.Assoc.{text_key}
use yolo_server.Json.Interface.{Json}
use yolo_server.Host.{Host, host_socket, host_net}
use yolo_server.Server.Socket.{IsStream}
use yolo_server.Server.Headers.{frame}
use yolo_server.Server.Protocol.{send_message, recv_message}
use yolo_server.Server.Sending.{send_message_all}
use yolo_server.Server.Framing.{recv_message-frame}
use yolo_server.Pool.Connections.{RaftConnectionPool, get_connection}
use yolo_server.Raft.Types.{RaftNode}
use yolo_server.Rpc.Exchange.{Link, read_reply, finish, after_send, on_connection, exchange_with}
use yolo_server.Connection.State.{Connection, set_world, reply_with}
use yolo_server.Connection.Machine.{IsReliable, reply-sent}
use yolo_server.Connection.Loop.{handle_message, handle, on_received}
use yolo_server.Connection.Relaying.{SendsAll}
use yolo_server.Connection.Asking.{with_node}

-- The world once a message is sent, and once a message is received.
abbrev pub after_message : (G : Host) → ℕ → Text → G.World → G.World
after_message G fd msg w = (send_message (host_socket G) fd msg w).1

abbrev pub once_received : {H : Host} → Connection H → Text → H.World
once_received {H} c out = (recv_message (host_socket H) c.fd out c.world).2

-- The side that asks.
module _ (K : Json) {G : Host} (I : IsStream (host_socket G)) (all : SendsAll G) where
  open I use {sent, pending}

  pub exchange_with-reply :
      {A : Type 0} (read : K.Value → Option A) (peer msg host reply rest : Text) (port : ℤ)
      (l : Link G) (fd : ℕ) (p : RaftConnectionPool) (w : G.World)
      → get_connection (host_net G) peer host port l.pool l.world ≡ (some fd, p, w)
      → 1 ≤ length reply
      → length reply ≤ 1048576
      → pending (after_message G fd msg w) fd ≡ frame reply ++ rest
      → (exchange_with K read peer (some msg) (some (host, port)) l).0
        ≡ returns (read_reply K read reply)
  unfolding exchange_with on_connection after_send finish
  exchange_with-reply read peer msg host reply rest port l fd p w connected low high waits =
      let (got, same, left) =
        recv_message-frame (host_socket G) I fd [] (after_message G fd msg w) reply rest low high
          waits in
      rw (connected, send_message_all (host_socket G) all fd msg w, got, same) refl

-- The side that answers.
module _ (K : Json) (hash : Text → ℕ) {H : Host} (R : IsReliable H) where
  pub handle-answers :
      (c : Connection H) (msg rest text out : Text) (after : RaftNode) (w : H.World)
      → 1 ≤ length msg
      → length msg ≤ 1048576
      → R.stream.pending c.world c.fd ≡ frame msg ++ rest
      → handle_message K hash msg (set_world c (once_received c out))
        ≡ reply_with text (with_node (set_world c (once_received c out)) after w)
      → let c1 = (handle K hash 1 out c).1 in
        (c1.raft_node ≡ some after)
        × (R.stream.sent c1.world c.fd ≡ R.stream.sent w c.fd ++ frame text)
  unfolding handle on_received
  handle-answers c msg rest text out after w low high waits run =
      let (got, same, left) =
        recv_message-frame (host_socket H) R.stream c.fd out c.world msg rest low high waits in
      rw (got, same, run)
        (refl, reply-sent R text (with_node (set_world c (once_received c out)) after w))
