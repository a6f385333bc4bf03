-- ===== src/Cluster/Health.antt =====
-- checkNodeHealth of cluster/ShardRouter.cpp.
use yolo_server.Prelude.{
  ℕ, ℤ, Bool, true, false, Option, none, some, Text, [], ◌∷◌, ◌==◌, if◌then◌else◌, ◌>>=◌, length,
  codes, text_eq,
}
use yolo_server.Server.Socket.{Socket, received}
use yolo_server.Server.Protocol.{overwrite, zeros}
use yolo_server.Cluster.Router.{NodeInfo}

-- The further calls of the operating system that a client makes. `recv_some` is recv without
-- MSG_WAITALL; `set_timeouts` sets the limits of one second for both directions.
pub record Dialer : Type 1 where
  pub socket : Socket
  open socket use {World}
  pub open_socket : World → Option ℕ × World
  pub is_address : Text → Bool
  pub set_timeouts : World → ℕ → World
  pub connect : World → ℕ → Text → ℤ → Bool × World
  pub recv_some : World → ℕ → ℕ → Option Text × World
  pub close : World → ℕ → World

abbrev pub is_some {ℓ} : {A : Type ℓ} → Option A → Bool
is_some none = false
is_some (some a) = true

-- The string that starts at the front of the buffer and ends before its first 0; `none` is a read
-- past the end of the buffer.
unfoldable pub c_string : Text → Option Text
c_string [] = none
c_string (c ∷ cs) = let rest = c_string cs in if c == 0 then some [] else rest >>= λ s. some (c ∷ s)

module _ (D : Dialer) where
  open D use {open_socket, is_address, set_timeouts, connect, recv_some, close}
  open D.socket use {World, send}

  -- The answer in the buffer of 16 bytes, and the end of the connection.
  unfoldable pub check_answer : ℕ → Option Text → World → Option (Bool × World)
  check_answer fd r w =
      if length (received r) == 0
      then some (false, close w fd)
      else (c_string (overwrite (zeros 16) (received r)) >>= λ response.
          some (text_eq response (codes "PONG"), close w fd))

  -- Steps 3 and 4, on a connected socket.
  unfoldable pub ping : ℕ → World → Option (Bool × World)
  ping fd w =
      let (s, w1) = send w fd (codes "PING") in
      let (r, w2) = recv_some w1 fd 16 in
      if is_some s then check_answer fd r w2 else some (false, close w1 fd)

  unfoldable pub check_connected : NodeInfo → ℕ → World → Option (Bool × World)
  check_connected node fd w =
      if is_address node.host
      then (let (ok, w1) = connect (set_timeouts w fd) fd node.host node.port in
          if ok then ping fd w1 else some (false, close w1 fd))
      else some (false, close w fd)

  -- checkNodeHealth
  unfoldable pub check_opened : NodeInfo → Option ℕ × World → Option (Bool × World)
  check_opened node (none, w) = some (false, w)
  check_opened node (some fd, w) = check_connected node fd w

  unfoldable pub check_node_health : NodeInfo → World → Option (Bool × World)
  check_node_health node w = check_opened node (open_socket w)
