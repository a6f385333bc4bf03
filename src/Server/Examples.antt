-- ===== src/Server/Examples.antt =====
-- The theorems on server/Protocol.cpp, server/Command.cpp and server/Server.cpp at concrete inputs.
use yolo_server.Prelude.{length, ℕ, ◌≡◌, refl, true, false, inr, [], ◌∷◌, ◌++◌, arith, take, codes}
use yolo_server.Prelude.{Ensures, All, ◌≤◌, text_eq}
use yolo_server.Prelude.Assoc.{lookup}
use yolo_server.Config.Store.{Config, get_string}
use yolo_server.Cluster.Router.{NodeInfo}
use yolo_server.Cluster.Tests.{framed_peer}
use yolo_server.Server.Startup.{to_string, node_of, load_cluster}
use yolo_server.Server.Alone.{load_cluster-alone}
use yolo_server.Server.Protocol.{recv_message, send_message}
use yolo_server.Server.Framing.{recv_message-frame, recv_message-refused}
use yolo_server.Server.Headers.{frame}
use yolo_server.Server.Sending.{send_message_lem}
use yolo_server.Server.Tests.{pipe, pipe-IsStream, hello, inbox_of}

recv_message-frame_example :
    let r = recv_message pipe 3 [] (inbox_of (frame hello ++ 7 ∷ [])) in
    (r.0 ≡ true) × (r.1 ≡ hello) × (r.2.inbox ≡ 7 ∷ [])
recv_message-frame_example =
    recv_message-frame pipe pipe-IsStream 3 [] (inbox_of (frame hello ++ 7 ∷ [])) hello (7 ∷ [])
      (omega arith) (omega arith) refl

recv_message-refused_example :
    let r = recv_message pipe 3 hello (inbox_of (codes "PING")) in
    (r.0 ≡ false) × (r.1 ≡ hello) × (r.2.inbox ≡ [])
recv_message-refused_example =
    recv_message-refused pipe pipe-IsStream 3 hello (inbox_of (codes "PING")) 80 73 78 71 [] refl
      (inr (omega arith))

send_message_lem_example :
    let r = send_message pipe 3 hello (inbox_of []) in
    ((r.0 ≡ true) → r.1.outbox ≡ frame hello) × ((k : ℕ) × (r.1.outbox ≡ take k (frame hello)))
send_message_lem_example = send_message_lem pipe pipe-IsStream 3 hello (inbox_of [])

-- A configuration of two nodes, read by the first.
abbrev two_nodes : Config
two_nodes =
    (codes "server.id", codes "node1")
    ∷ (codes "nodes.count", codes "2")
    ∷ (codes "node1.id", codes "node1")
    ∷ (codes "node2.id", codes "node2")
    ∷ []

twelve : to_string 12 ≡ codes "12"
twelve = refl

second : (node_of two_nodes 1).id ≡ codes "node2"
unfolding node_of get_string lookup text_eq
second = refl

load_cluster-alone_example :
    Ensures
      (λ r.
        (length r.0 ≤ 1)
        × All (λ (n : NodeInfo). n.id ≡ get_string (codes "server.id") [] two_nodes) r.0)
      (load_cluster framed_peer two_nodes (inbox_of []))
load_cluster-alone_example =
    load_cluster-alone framed_peer (λ w fd. (codes "PONG", 16, omega arith, refl)) two_nodes
      (inbox_of [])
