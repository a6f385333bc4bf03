-- ===== src/Connection/Relaying.antt =====
-- forwardToNode of server/Connection.cpp when the other node can be reached and answers.
use yolo_server.Prelude.{Bool, ℕ, ◌≤◌, ◌≡◌, ◌≢◌, refl, ap, ◌∙◌, true, some, Text, [], ◌++◌, length}
use yolo_server.Host.{Host, host_socket}
use yolo_server.Server.Socket.{IsStream}
use yolo_server.Server.Headers.{frame}
use yolo_server.Server.Protocol.{took, send_message, recv_message}
use yolo_server.Server.Sending.{send_message_lem, send_message_all}
use yolo_server.Server.Framing.{recv_message-frame}
use yolo_server.Cluster.Router.{NodeInfo}
use yolo_server.Connection.Forward.{ok, connect_with_retry, relay, forward_on, forward_to_node}
use yolo_server.Connection.Forwarding.{HasClient, Silent, attempts-Silent, ask-Silent, recv-Silent}

-- Each send takes all bytes.
abbrev pub SendsAll : Host → Type 0
SendsAll H = (w : H.World) (fd : ℕ) (msg : Text) → took (H.send w fd msg).0 (length msg) ≡ true

module _ (H : Host) where
  abbrev pub attempts : ℕ → NodeInfo → H.World → Bool × H.World
  attempts f node w =
      connect_with_retry H 5 f node.host node.port (H.set_nonblocking f (H.open_socket w).1)

  -- The world once the request is on its way to the node.
  abbrev pub asked : ℕ → NodeInfo → Text → H.World → H.World
  asked f node msg w = (send_message (host_socket H) f msg (attempts f node w).1).1

  -- A socket can be opened, and one of the attempts to connect it to the node succeeds.
  pub record Reaches (f : ℕ) (node : NodeInfo) (w : H.World) : Type 0 where
    pub opened : (H.open_socket w).0 ≡ some f
    pub address : H.is_address node.host ≡ true
    pub connected : (attempts f node w).0 ≡ true

module _ {H : Host} (I : IsStream (host_socket H)) {client : ℕ} (C : HasClient H I client)
    (all : SendsAll H) where
  open I use {sent, pending}

  -- The request goes to the node as one whole message.
  pub asked-sent :
      (f : ℕ) (node : NodeInfo) (msg : Text) (w : H.World)
      → sent (asked H f node msg w) f ≡ sent (attempts H f node w).1 f ++ frame msg
  asked-sent f node msg w =
      (send_message_lem (host_socket H) I f msg (attempts H f node w).1).0
        (send_message_all (host_socket H) all f msg (attempts H f node w).1)

  asked-Silent :
      (f : ℕ) (node : NodeInfo) (msg : Text) (w : H.World)
      → f ≢ client
      → Silent I C w (asked H f node msg w)
  asked-Silent f node msg w apart = ask-Silent I C w f msg (attempts H f node w).1 apart (
      attempts-Silent I C w 5 f node.host node.port (H.set_nonblocking f (H.open_socket w).1)
        (C.nonblocking_sent (H.open_socket w).1 f ∙ C.open_sent w))

  relay-whole :
      (f : ℕ) (node : NodeInfo) (msg reply rest : Text) (w : H.World)
      → f ≢ client
      → 1 ≤ length reply
      → length reply ≤ 1048576
      → pending (asked H f node msg w) f ≡ frame reply ++ rest
      → let (code, v) = relay H client msg f (attempts H f node w).1 in
        (code ≡ ok) × (sent v client ≡ sent w client ++ frame reply)
  unfolding relay
  relay-whole f node msg reply rest w apart low high waits =
      let w1 = asked H f node msg w in
      let (got, read, left) =
        recv_message-frame (host_socket H) I f [] w1 reply rest low high waits in
      let w2 = (recv_message (host_socket H) f [] w1).2 in
      let w3 = H.close f w2 in
      let quiet = C.close_sent w2 f ∙ recv-Silent I C w f w1 (asked-Silent f node msg w apart) in
      rw (got, read)
        (
          refl,
          (send_message_lem (host_socket H) I client reply w3).0
                (send_message_all (host_socket H) all client reply w3)
              ∙ ap (λ xs. xs ++ frame reply) quiet,
        )

  -- The client gets the node's reply, whole and nothing else.
  pub forward_to_node-whole :
      (f : ℕ) (node : NodeInfo) (msg reply rest : Text) (w : H.World)
      → Reaches H f node w
      → 1 ≤ length reply
      → length reply ≤ 1048576
      → pending (asked H f node msg w) f ≡ frame reply ++ rest
      → let (code, v) = forward_to_node H client node msg w in
        (code ≡ ok) × (sent v client ≡ sent w client ++ frame reply)
  unfolding forward_to_node forward_on
  forward_to_node-whole f node msg reply rest w there low high waits =
      rw (there.opened, there.address, there.connected)
        (relay-whole f node msg reply rest w (C.open_apart w f there.opened) low high waits)
