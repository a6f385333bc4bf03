-- ===== src/Connection/Loop.antt =====
-- handle of server/Connection.cpp. The fuel is the number of messages that are read at most.
use yolo_server.Prelude.{ℕ, zero, suc, Bool, true, false, Text, []}
use yolo_server.Prelude.Exec.{Exec, Outcome, returns, throws, fault, pure, ◌>>=◌, ◌>>◌}
use yolo_server.Json.Interface.{Json}
use yolo_server.Host.{Host, host_socket}
use yolo_server.Server.Protocol.{recv_message}
use yolo_server.Server.Command.{
  CommandType, parse_command, ping, store, get, raft_request_vote, raft_append_entries, unknown,
}
use yolo_server.Connection.State.{Connection, set_world}
use yolo_server.Connection.Tokens.{get_first_token}
use yolo_server.Connection.Handlers.{handle_ping, handle_unknown, handle_store, handle_get}
use yolo_server.Connection.Raft.{handle_raft_request_vote, handle_raft_append_entries}

module _ {H : Host} where
  -- Protocol::recvMessage(m_fd, data): its result, and what `data` holds.
  abbrev pub receive : Text → Exec (Connection H) (Bool × Text)
  receive out c =
      let (got, msg, w) = recv_message (host_socket H) c.fd out c.world in
      (returns (got, msg), set_world c w)

  -- The destructor, once start has returned or an exception has left it, which the thread that runs
  -- the task catches (ThreadPool::worker). While the loop goes on the object lives.
  unfoldable pub destroy : Outcome Bool × Connection H → Outcome Bool × Connection H
  destroy (returns true, c) = (returns true, set_world c (H.close c.fd c.world))
  destroy (returns false, c) = (returns false, c)
  destroy (throws, c) = (throws, set_world c (H.close c.fd c.world))
  destroy (fault, c) = (fault, c)

module _ {H : Host} (K : Json) (hash : Text → ℕ) where
  -- The switch of handle.
  unfoldable pub run_command : Text → CommandType → Exec (Connection H) Unit
  run_command msg ping = handle_ping
  run_command msg store = handle_store K hash msg
  run_command msg get = handle_get K hash msg
  run_command msg raft_request_vote = handle_raft_request_vote K msg
  run_command msg raft_append_entries = handle_raft_append_entries K msg
  run_command msg unknown = handle_unknown

  unfoldable pub handle_message : Text → Exec (Connection H) Unit
  handle_message msg = run_command msg (parse_command (get_first_token msg))

  unfoldable pub on_received :
      (Text → Exec (Connection H) Bool) → Bool × Text → Exec (Connection H) Bool
  on_received next (false, msg) = pure true
  on_received next (true, msg) = do handle_message msg; next msg

  -- The loop of handle, with what the buffer holds: true once recvMessage has returned false, and
  -- false when the fuel is used up.
  unfoldable pub handle : ℕ → Text → Exec (Connection H) Bool
  handle zero out = pure false
  handle (suc fuel) out = do r ← receive out; on_received (handle fuel) r

  -- The task that acceptLoop submits: a Connection is made, started, and destroyed.
  unfoldable pub serve : ℕ → Exec (Connection H) Bool
  unfolding destroy
  serve fuel c = destroy (handle fuel [] c)
