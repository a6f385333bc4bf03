-- ===== src/Connection/Forward.antt =====
-- forwardToNode and connectWithRetry of server/Connection.cpp, and the codes of
-- common/error/ErrorCode.h.
use yolo_server.Prelude.{
  ℕ, zero, suc, ℤ, Bool, true, false, not, Option, none, some, Text, [], ◌==◌, if◌then◌else◌,
}
use yolo_server.Host.{Host, host_socket}
use yolo_server.Server.Protocol.{send_message, recv_message}
use yolo_server.Cluster.Router.{NodeInfo}

pub data ErrorCode : Type 0 where
  ok : ErrorCode
  invalid_request internal_error timeout : ErrorCode
  connect_failed connect_timeout send_failed recv_failed node_unavailable fd_fialed : ErrorCode
  not_found already_exists : ErrorCode
  not_leader shard_mismatch : ErrorCode

-- code == CONNECT_FAILED
abbrev pub is_connect_failed : ErrorCode → Bool
is_connect_failed connect_failed = true
is_connect_failed _ = false

module _ (H : Host) where
  open H use {World, sleep_ms, open_socket, set_nonblocking, is_address, connect, close}

  -- connectWithRetry, with the attempts that are left; it sleeps between two attempts.
  unfoldable pub connect_with_retry : ℕ → ℕ → Text → ℤ → World → Bool × World
  connect_with_retry zero fd host port w = (false, w)
  connect_with_retry (suc left) fd host port w =
      let (connected, w1) = connect fd host port w in
      let rest =
        connect_with_retry left fd host port (if left == 0 then w1 else sleep_ms 1000 w1) in
      if connected then (true, w1) else rest

  -- From the first sendMessage on; `client` is m_fd.
  unfoldable pub relay : ℕ → Text → ℕ → World → ErrorCode × World
  relay client msg fd w =
      let (sent, w1) = send_message (host_socket H) fd msg w in
      let (got, reply, w2) = recv_message (host_socket H) fd [] w1 in
      let w3 = close fd w2 in
      if got then (ok, (send_message (host_socket H) client reply w3).1) else (recv_failed, w3)

  unfoldable pub forward_on : ℕ → NodeInfo → Text → Option ℕ × World → ErrorCode × World
  forward_on client node msg (none, w) = (fd_fialed, w)
  forward_on client node msg (some fd, w) =
      let w1 = set_nonblocking fd w in
      let (connected, w2) = connect_with_retry 5 fd node.host node.port w1 in
      if not (is_address node.host)
      then (fd_fialed, close fd w1)
      else if not connected
      then (connect_failed, close fd w2)
      else relay client msg fd w2

  -- forwardToNode
  unfoldable pub forward_to_node : ℕ → NodeInfo → Text → World → ErrorCode × World
  forward_to_node client node msg w = forward_on client node msg (open_socket w)
