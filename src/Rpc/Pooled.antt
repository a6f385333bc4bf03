-- ===== src/Rpc/Pooled.antt =====
-- The connection of an exchange of raft/RaftNode.cpp, from the pool and back.
use yolo_server.Prelude.{
  [], ℕ, ℤ, ◌≡◌, refl, Bool, true, false, Option, none, some, Text, if◌then◌else◌,
}
use yolo_server.Prelude.Exec.{Outcome, returns, throws, fault}
use yolo_server.Json.Interface.{Json}
use yolo_server.Host.{Host, host_socket, host_net}
use yolo_server.Server.Keeping.{send_message-keeps, recv_message-keeps}
use yolo_server.Server.Protocol.{send_message, recv_message}
use yolo_server.Pool.Net.{Descriptors}
use yolo_server.Pool.Connections.{RaftConnectionPool, get_connection, release_connection}
use yolo_server.Pool.Invariant.{NotQueued, IsSound, IsSound-keeps}
use yolo_server.Pool.Getting.{Got, get_connection-Got}
use yolo_server.Pool.Releasing.{Released, release_connection-Released}
use yolo_server.Rpc.Exchange.{Link, finish, after_send, on_connection, exchange_with}

-- A send and a recv close nothing.
pub record KeepsOpen (H : Host) (D : Descriptors (host_net H)) : Type 0 where
  pub send_keeps :
      (w : H.World) (f : ℕ) (msg : Text) (fd : ℕ) → D.IsOpen w fd → D.IsOpen (H.send w f msg).1 fd
  pub recv_keeps : (w : H.World) (f len fd : ℕ) → D.IsOpen w fd → D.IsOpen (H.recv w f len).1 fd

module _ {H : Host} {D : Descriptors (host_net H)} (O : KeepsOpen H D) (peer : Text) where
  -- A descriptor that waits in no queue, on a good pool.
  abbrev Held : ℕ → RaftConnectionPool → H.World → Type 0
  Held fd p w = NotQueued fd p × D.IsOpen w fd × IsSound D p w

  -- How an exchange ends: it returns; a connection that getConnection gave is released.
  abbrev pub Exchanged :
      {R : Type 0} → Option ℕ → RaftConnectionPool → Outcome (Option R) × Link H → Type 0
  Exchanged none p (returns reply, l) = IsSound D l.pool l.world × (reply ≡ none)
  Exchanged (some fd) p (returns reply, l) = Released D peer fd p (l.pool, l.world)
  Exchanged _ p (throws, l) = ⊥
  Exchanged _ p (fault, l) = ⊥

  send-Held :
      (fd : ℕ) (msg : Text) (p : RaftConnectionPool) (w : H.World)
      → Held fd p w
      → Held fd p (send_message (host_socket H) fd msg w).1
  send-Held fd msg p =
      send_message-keeps (host_socket H) (Held fd p) fd
        (λ v msg (free, opened, sound). (
          free,
          O.send_keeps v fd msg fd opened,
          IsSound-keeps D p v (H.send v fd msg).1 (O.send_keeps v fd msg) sound,
        ))
        msg

  recv-Held :
      (fd : ℕ) (p : RaftConnectionPool) (w : H.World)
      → Held fd p w
      → Held fd p (recv_message (host_socket H) fd [] w).2
  recv-Held fd p =
      recv_message-keeps (host_socket H) (Held fd p)
        (λ v f len (free, opened, sound). (
          free,
          O.recv_keeps v f len fd opened,
          IsSound-keeps D p v (H.recv v f len).1 (O.recv_keeps v f len) sound,
        ))
        fd []

  module _ (K : Json) {R : Type 0} (read : K.Value → Option R) where
    release :
        (fd : ℕ) (p : RaftConnectionPool) (w : H.World)
        → Held fd p w
        → Released D peer fd p (release_connection (host_net H) peer fd p w)
    release fd p w (free, opened, sound) =
        release_connection-Released D peer fd p w free opened sound

    finish-Exchanged :
        (fd : ℕ) (response : Option Text) (p : RaftConnectionPool) (w : H.World)
        → Held fd p w
        → Exchanged (some fd) p (finish K read peer fd response (record { pool = p; world = w }))
    unfolding finish
    finish-Exchanged fd none p w held = release fd p w held
    finish-Exchanged fd (some response) p w held = release fd p w held

    after_send-Exchanged :
        (fd : ℕ) (sent : Bool) (p : RaftConnectionPool) (w : H.World)
        → Held fd p w
        → Exchanged (some fd) p (after_send K read peer fd sent (record { pool = p; world = w }))
    unfolding after_send
    after_send-Exchanged fd false p w held = release fd p w held
    after_send-Exchanged fd true p w held =
        let (got, response, w1) = recv_message (host_socket H) fd [] w in
        finish-Exchanged fd (if got then some response else none) p w1 (recv-Held fd p w held)

    on_connection-Exchanged :
        (msg : Text) (fd : Option ℕ) (p : RaftConnectionPool) (w : H.World)
        → Got D peer (fd, p, w)
        → Exchanged fd p (on_connection K read peer (some msg) fd (record { pool = p; world = w }))
    unfolding on_connection
    on_connection-Exchanged msg none p w sound = (sound, refl)
    on_connection-Exchanged msg (some fd) p w (sound, owner, opened, free) =
        let r = send_message (host_socket H) fd msg w in
        after_send-Exchanged fd r.0 p r.1 (send-Held fd msg p w (free, opened, sound))

    -- An exchange of sendRequestVote or sendAppendEntries on a good pool, whose message can be
    -- printed, returns and leaves a good pool. If getConnection gave a connection, then, whether the
    -- exchange failed or not, the connection is back at the end of the queue of its peer or closed
    -- and in no queue; if it gave none, the result is false.
    pub exchange_with-Exchanged :
        (msg host : Text) (port : ℤ) (l : Link H)
        → IsSound D l.pool l.world
        → let (fd, p, w) = get_connection (host_net H) peer host port l.pool l.world in
          Exchanged fd p (exchange_with K read peer (some msg) (some (host, port)) l)
    unfolding exchange_with
    exchange_with-Exchanged msg host port l sound =
        let (fd, p, w) = get_connection (host_net H) peer host port l.pool l.world in
        on_connection-Exchanged msg fd p w
          (get_connection-Got D peer host port l.pool l.world sound)
