-- ===== src/Server/Keeping.antt =====
-- What the calls of a socket keep, recvMessage and sendMessage of server/Protocol.cpp keep.
use yolo_server.Prelude.{ℕ, Bool, Text, ◌||◌, ◌==◌, ltb, length, if_both}
use yolo_server.Server.Socket.{Socket, received}
use yolo_server.Server.Protocol.{
  htonl, ntohl, took, max_message_size, recv_body, recv_message, send_message,
}

module _ (S : Socket) (P : S.World → Type 0) where
  open S use {World, recv, send}

  pub send_message-keeps :
      (fd : ℕ)
      → ((w : World) (msg : Text) → P w → P (send w fd msg).1)
      → (msg : Text) (w : World) → P w
      → P (send_message S fd msg w).1
  unfolding send_message
  send_message-keeps fd sends msg w p =
      let w1 = (send w fd (htonl (length msg))).1 in
      let p1 = sends w (htonl (length msg)) p in
      if_both (λ (r : Bool × World). P r.1) (took (send w fd (htonl (length msg))).0 4) _ _
        (sends w1 msg p1) p1

  module _ (receives : (w : World) (fd len : ℕ) → P w → P (recv w fd len).1) where
    abbrev KeptBy : Bool × Text × World → Type 0
    KeptBy r = P r.2

    recv_body-keeps :
        (fd : ℕ) (out : Text) (len : ℕ) (w : World) → P w → P (recv_body S fd out len w).2
    unfolding recv_body
    recv_body-keeps fd out len w p =
        if_both KeptBy (length (received (recv w fd len).0) == 0) _ _ (receives w fd len p)
          (receives w fd len p)

    pub recv_message-keeps : (fd : ℕ) (out : Text) (w : World) → P w → P (recv_message S fd out w).2
    unfolding recv_message
    recv_message-keeps fd out w p =
        let p1 = receives w fd 4 p in
        let size = ntohl (received (recv w fd 4).0) in
        if_both KeptBy (length (received (recv w fd 4).0) == 0) _ _ p1 (
          if_both KeptBy (size == 0 || ltb max_message_size size) _ _ p1
            (recv_body-keeps fd out size (recv w fd 4).1 p1))
