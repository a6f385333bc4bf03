-- ===== src/Connection/Machine.antt =====
-- A machine on which nothing fails, under server/Connection.cpp.
use yolo_server.Prelude.{refl, ℕ, ◌≡◌, ◌∙◌, true, Text, ◌++◌, length}
use yolo_server.Host.{Host, host_socket, host_database}
use yolo_server.Server.Socket.{IsStream}
use yolo_server.Server.Protocol.{recv_message, took, send_message}
use yolo_server.Server.Headers.{frame}
use yolo_server.Server.Sending.{send_message_lem, send_message_all}
use yolo_server.Server.Keeping.{send_message-keeps, recv_message-keeps}
use yolo_server.Storage.Database.{IsDurable}
use yolo_server.Connection.State.{Connection, reply_with}

-- Its sockets take what is sent, its database keeps what is put, and neither touches the other.
pub record IsReliable (H : Host) : Type 0 where
  pub stream : IsStream (host_socket H)
  pub durable : IsDurable (host_database H)
  pub send_all : (w : H.World) (fd : ℕ) (msg : Text) → took (H.send w fd msg).0 (length msg) ≡ true
  pub put_ok : (k v : Text) (w : H.World) → (H.put k v w).0 ≡ true
  pub recv_stored :
      (w : H.World) (fd len : ℕ) (k : Text)
      → durable.stored (H.recv w fd len).1 k ≡ durable.stored w k
  pub recv_sent :
      (w : H.World) (fd len other : ℕ) → stream.sent (H.recv w fd len).1 other ≡ stream.sent w other
  pub send_stored :
      (w : H.World) (fd : ℕ) (msg k : Text)
      → durable.stored (H.send w fd msg).1 k ≡ durable.stored w k
  pub send_pending :
      (w : H.World) (fd : ℕ) (msg : Text) (other : ℕ)
      → stream.pending (H.send w fd msg).1 other ≡ stream.pending w other
  pub put_sent :
      (k v : Text) (w : H.World) (fd : ℕ) → stream.sent (H.put k v w).1 fd ≡ stream.sent w fd
  pub put_pending :
      (k v : Text) (w : H.World) (fd : ℕ) → stream.pending (H.put k v w).1 fd ≡ stream.pending w fd
  pub get_sent : (k : Text) (w : H.World) (fd : ℕ) → stream.sent (H.get k w).1 fd ≡ stream.sent w fd
  pub get_pending :
      (k : Text) (w : H.World) (fd : ℕ) → stream.pending (H.get k w).1 fd ≡ stream.pending w fd

module _ {H : Host} (R : IsReliable H) where
  open R.stream use {sent, pending}
  open R.durable use {stored}

  send_message-stored :
      (fd : ℕ) (msg : Text) (w : H.World) (k : Text)
      → stored (send_message (host_socket H) fd msg w).1 k ≡ stored w k
  send_message-stored fd msg w k =
      send_message-keeps (host_socket H) (λ v. stored v k ≡ stored w k) fd
        (λ v bytes same. R.send_stored v fd bytes k ∙ same) msg w refl

  pub reply-sent :
      (msg : Text) (c : Connection H)
      → sent (reply_with msg c).1.world c.fd ≡ sent c.world c.fd ++ frame msg
  reply-sent msg c =
      (send_message_lem (host_socket H) R.stream c.fd msg c.world).0
        (send_message_all (host_socket H) R.send_all c.fd msg c.world)

  pub reply-stored :
      (msg : Text) (c : Connection H) (k : Text)
      → stored (reply_with msg c).1.world k ≡ stored c.world k
  reply-stored msg c = send_message-stored c.fd msg c.world

  pub reply-pending :
      (msg : Text) (c : Connection H)
      → pending (reply_with msg c).1.world c.fd ≡ pending c.world c.fd
  reply-pending msg c =
      send_message-keeps (host_socket H) (λ v. pending v c.fd ≡ pending c.world c.fd) c.fd
        (λ v bytes same. R.send_pending v c.fd bytes c.fd ∙ same) msg c.world refl

  abbrev Kept : ℕ → H.World → H.World → Type 0
  Kept fd w v = (sent v fd ≡ sent w fd) × ((k : Text) → stored v k ≡ stored w k)

  -- recvMessage changes neither the contents nor what was sent.
  pub recv_message-Kept :
      (fd : ℕ) (out : Text) (w : H.World) → Kept fd w (recv_message (host_socket H) fd out w).2
  recv_message-Kept fd out w =
      recv_message-keeps (host_socket H) (Kept fd w)
        (λ v d len same. (R.recv_sent v d len fd ∙ same.0, λ k. R.recv_stored v d len k ∙ same.1 k))
        fd out w (refl, λ k. refl)
