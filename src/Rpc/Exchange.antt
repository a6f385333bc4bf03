-- ===== src/Rpc/Exchange.antt =====
-- sendRequestVote and sendAppendEntries of raft/RaftNode.cpp. They differ in the message and in the
-- reply that they read.
use yolo_server.Prelude.{ℕ, ℤ, Bool, true, false, Option, none, some, Text, [], if◌then◌else◌}
use yolo_server.Prelude.Exec.{Exec, pure, lift, or_throw, ◌>>=◌, ◌>>◌}
use yolo_server.Prelude.Assoc.{Assoc, lookup, text_key}
use yolo_server.Json.Interface.{Json}
use yolo_server.Host.{Host, host_socket, host_net}
use yolo_server.Server.Protocol.{send_message, recv_message}
use yolo_server.Pool.Connections.{RaftConnectionPool, get_connection, release_connection}
use yolo_server.Raft.Types.{
  RequestVoteArgs, RequestVoteReply, AppendEntriesArgs, AppendEntriesReply,
}
use yolo_server.Rpc.Messages.{
  read_text, payload, vote_request, read_vote_reply, append_request, read_append_reply,
}

-- What an exchange works on: the pool of the node and the machine.
pub record Link (H : Host) : Type 0 where
  pub pool : RaftConnectionPool
  pub world : H.World

module _ {H : Host} where
  abbrev pub take_connection : Text → Text → ℤ → Link H → Option ℕ × Link H
  take_connection peer host port l =
      let (fd, p, w) = get_connection (host_net H) peer host port l.pool l.world in
      (fd, record { pool = p; world = w })

  abbrev pub give_back : Text → ℕ → Link H → Unit {0} × Link H
  give_back peer fd l =
      let (p, w) = release_connection (host_net H) peer fd l.pool l.world in
      (tt, record { pool = p; world = w })

  abbrev pub send_on : ℕ → Text → Link H → Bool × Link H
  send_on fd msg l =
      let (ok, w) = send_message (host_socket H) fd msg l.world in (ok, record l { world = w })

  -- The reply, or none if recvMessage returns false.
  abbrev pub receive_on : ℕ → Link H → Option Text × Link H
  receive_on fd l =
      let (ok, response, w) = recv_message (host_socket H) fd [] l.world in
      (if ok then some response else none, record l { world = w })

module _ (K : Json) where
  -- The reply from the text behind the first space; an exception is caught.
  abbrev pub read_payload : {R : Type 0} → (K.Value → Option R) → Option Text → Option R
  read_payload read none = none
  read_payload read (some s) = read_text K read s

  unfoldable pub read_reply : {R : Type 0} → (K.Value → Option R) → Text → Option R
  read_reply read response = read_payload read (payload response)

  module _ {H : Host} {R : Type 0} (read : K.Value → Option R) where
    -- From the answer on: the connection goes back to the pool in either case.
    unfoldable pub finish : Text → ℕ → Option Text → Exec (Link H) (Option R)
    finish peer fd none = do lift (give_back peer fd); pure none
    finish peer fd (some response) = do lift (give_back peer fd); pure (read_reply read response)

    unfoldable pub after_send : Text → ℕ → Bool → Exec (Link H) (Option R)
    after_send peer fd false = do lift (give_back peer fd); pure none
    after_send peer fd true = do response ← lift (receive_on fd); finish peer fd response

    unfoldable pub on_connection : Text → Option Text → Option ℕ → Exec (Link H) (Option R)
    on_connection peer message none = pure none
    on_connection peer message (some fd) = do
      msg ← or_throw message
      sent ← lift (send_on fd msg)
      after_send peer fd sent

    unfoldable pub exchange_with : Text → Option Text → Option (Text × ℤ) → Exec (Link H) (Option R)
    exchange_with peer message none = pure none
    exchange_with peer message (some (host, port)) = do
      fd ← lift (take_connection peer host port)
      on_connection peer message fd

  -- sendRequestVote and sendAppendEntries, with m_peerAddresses first; `none` is false.
  unfoldable pub send_request_vote :
      {H : Host}
      → Assoc Text (Text × ℤ)
      → Text
      → RequestVoteArgs
      → Exec (Link H) (Option RequestVoteReply)
  send_request_vote addresses peer args =
      exchange_with (read_vote_reply K) peer (vote_request K args) (lookup peer addresses)

  unfoldable pub send_append_entries :
      {H : Host}
      → Assoc Text (Text × ℤ)
      → Text
      → AppendEntriesArgs
      → Exec (Link H) (Option AppendEntriesReply)
  send_append_entries addresses peer args =
      exchange_with (read_append_reply K) peer (append_request K args) (lookup peer addresses)
