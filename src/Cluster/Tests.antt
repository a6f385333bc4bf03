-- ===== src/Cluster/Tests.antt =====
-- A small cluster with a toy hash, and a peer that answers PONG as server/Protocol.cpp frames it.
use yolo_server.Prelude.{
  ℕ, ◌+◌, ◌*◌, ◌%◌, ◌≡◌, refl, pos, true, false, none, some, Text, List, [], ◌∷◌, codes, take,
  text_eq,
}
use yolo_server.Server.Headers.{frame}
use yolo_server.Server.Tests.{pipe, inbox_of}
use yolo_server.Cluster.Router.{NodeInfo, pick_node, pick_loop, consider, score_of}
use yolo_server.Cluster.Health.{
  Dialer, check_node_health, check_opened, check_connected, ping, check_answer, c_string,
}
use yolo_server.Server.Protocol.{overwrite}

-- A hash of strings: their digits in base 31.
abbrev pub toy_hash : Text → ℕ
toy_hash [] = 7
toy_hash (c ∷ cs) = (c + 31 * toy_hash cs) % 1009

abbrev pub node_at : Text → NodeInfo
node_at id = record { id = id; host = codes "127.0.0.1"; port = pos 8080; healthy = true }

abbrev pub node1 : NodeInfo
node1 = node_at (codes "node1")

abbrev pub node2 : NodeInfo
node2 = node_at (codes "node2")

abbrev pub node3 : NodeInfo
node3 = record { id = codes "node3"; host = codes "127.0.0.1"; port = pos 8082; healthy = false }

abbrev pub trio : List NodeInfo
trio = node1 ∷ node2 ∷ node3 ∷ []

abbrev pub image : Text
image = codes "img"

picked : pick_node toy_hash trio image ≡ some node2
unfolding pick_node pick_loop consider score_of
picked = refl

lost : pick_node toy_hash (node3 ∷ []) image ≡ none
unfolding pick_node pick_loop consider
lost = refl

abbrev pub framed_peer : Dialer
framed_peer = record {
  socket = pipe;
  open_socket = λ w. (some 5, w);
  is_address = λ host. true;
  set_timeouts = λ w fd. w;
  connect = λ w fd host port. (true, w);
  recv_some = λ w fd n. (some (take n (frame (codes "PONG"))), w);
  close = λ w fd. w;
}

-- A peer that answers without a length in front.
abbrev plain_peer : Dialer
plain_peer = record framed_peer { recv_some = λ w fd n. (some (take n (codes "PONG")), w) }

plain_is_healthy :
    check_node_health plain_peer node1 (inbox_of [])
    ≡ some (true, record { inbox = []; outbox = codes "PING" })
unfolding check_node_health check_opened check_connected ping check_answer c_string overwrite
    text_eq
plain_is_healthy = refl

-- An answer of sixteen bytes without a 0 leaves no end of the string in the buffer.
abbrev chatty_peer : Dialer
chatty_peer = record framed_peer { recv_some = λ w fd n. (some (codes "PONGPONGPONGPONG"), w) }

chatty_overruns : check_node_health chatty_peer node1 (inbox_of []) ≡ none
unfolding check_node_health check_opened check_connected ping check_answer c_string overwrite
chatty_overruns = refl
