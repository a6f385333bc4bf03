-- ===== src/Connection/Calling.antt =====
-- A remote call between two servers: an exchange of raft/RaftNode.cpp over a connection of the pool,
-- answered by server/Connection.cpp of the peer.
use yolo_server.Prelude.{
  Option, ℕ, ℤ, ◌≤◌, ◌<◌, ◌≡◌, sym, ap, ◌∙◌, some, Text, [], ◌++◌, append_cancel, append-nil,
  length, arith, codes,
}
use yolo_server.Prelude.Exec.{returns}
use yolo_server.Prelude.Assoc.{Assoc, lookup, text_key}
use yolo_server.Json.Interface.{Json, IsFaithful, IsPrintable}
use yolo_server.Host.{Host, host_socket, host_net}
use yolo_server.Server.Socket.{IsStream}
use yolo_server.Server.Headers.{frame}
use yolo_server.Server.Sending.{send_message_lem, send_message_all}
use yolo_server.Pool.Connections.{RaftConnectionPool, get_connection}
use yolo_server.Raft.Types.{
  RaftNode, RequestVoteArgs, RequestVoteReply, AppendEntriesArgs, AppendEntriesReply,
}
use yolo_server.Raft.Node.{handle_request_vote, handle_append_entries}
use yolo_server.Rpc.Messages.{
  vote_request, vote_request_value, vote_reply_value, read_vote_reply, append_request,
  append_request_value, append_reply_value, read_append_reply,
}
use yolo_server.Rpc.Exchange.{
  Link, read_reply, exchange_with, send_request_vote, send_append_entries,
}
use yolo_server.Rpc.Wire.{u64, VoteArgsFit, AppendArgsFit, vote_reply-read, append_reply-read}
use yolo_server.Connection.State.{Connection, set_world, reply_with}
use yolo_server.Connection.Machine.{IsReliable}
use yolo_server.Connection.Raft.{node_env}
use yolo_server.Connection.Loop.{handle_message, handle}
use yolo_server.Connection.Relaying.{SendsAll}
use yolo_server.Connection.Asking.{with_node, vote_run, append_run}
use yolo_server.Connection.Exchanging.{
  after_message, once_received, exchange_with-reply, handle-answers,
}

abbrev pub vote_message : Text → Text
vote_message s = codes "RAFT_REQUEST_VOTE " ++ s

abbrev pub vote_answer : Text → Text
vote_answer t = codes "RAFT_REQUEST_VOTE_REPLY " ++ t

abbrev pub append_message : Text → Text
append_message s = codes "RAFT_APPEND_ENTRIES " ++ s

abbrev pub append_answer : Text → Text
append_answer t = codes "RAFT_APPEND_ENTRIES_REPLY " ++ t

module _ (K : Json) (F : IsFaithful K) (hash : Text → ℕ) {G H : Host} (I : IsStream (host_socket G))
    (all : SendsAll G) (R : IsReliable H) where
  -- The pool of the one server has a connection `fd` to the peer, and what is sent on one side of it
  -- is what arrives on the other, up to the first reply; `v` is the peer's world when its node has
  -- answered.
  pub record Wired (peer msg host : Text) (port : ℤ) (l : Link G) (fd : ℕ) (far : Connection H)
      (v : H.World) (out : Text) : Type 0 where
    pub pool : RaftConnectionPool
    pub world : G.World
    pub connected :
        get_connection (host_net G) peer host port l.pool l.world ≡ (some fd, pool, world)
    pub request_arrives :
        I.sent (after_message G fd msg world) fd
        ≡ I.sent world fd ++ R.stream.pending far.world far.fd
    pub reply_arrives :
        R.stream.sent (handle K hash 1 out far).1.world far.fd
        ≡ R.stream.sent v far.fd ++ I.pending (after_message G fd msg world) fd

  exchange_with-Wired :
      {A : Type 0} (read : K.Value → Option A) (peer msg text host : Text) (port : ℤ) (l : Link G)
      (fd : ℕ) (far : Connection H) (after : RaftNode) (v : H.World) (out : Text)
      → 1 ≤ length msg
      → length msg ≤ 1048576
      → 1 ≤ length text
      → length text ≤ 1048576
      → Wired peer msg host port l fd far v out
      → handle_message K hash msg (set_world far (once_received far out))
        ≡ reply_with text (with_node (set_world far (once_received far out)) after v)
      → ((exchange_with K read peer (some msg) (some (host, port)) l).0
          ≡ returns (read_reply K read text))
        × ((handle K hash 1 out far).1.raft_node ≡ some after)
  exchange_with-Wired read peer msg text host port l fd far after v out low short low' short' j
        run =
      let request : R.stream.pending far.world far.fd ≡ frame msg ++ [] =
        append_cancel (I.sent j.world fd) _ _ (
          sym j.request_arrives
          ∙ (send_message_lem (host_socket G) I fd msg j.world).0
              (send_message_all (host_socket G) all fd msg j.world))
        ∙ sym (append-nil (frame msg)) in
      let (kept, wire) =
        handle-answers K hash R far msg [] text out after v low short request run in
      let reply : I.pending (after_message G fd msg j.world) fd ≡ frame text ++ [] =
        append_cancel (R.stream.sent v far.fd) _ _ (sym j.reply_arrives ∙ wire)
        ∙ sym (append-nil (frame text)) in
      (
        exchange_with-reply K I all read peer msg host text [] port l fd j.pool j.world j.connected
            low' short' reply,
        kept,
      )

  -- SendRequestVote over a connection on which all bytes are delivered returns exactly the reply
  -- with which handleRequestVote of the peer's node answers the request, and the peer keeps the
  -- node that it leaves: the call is as good as a local one (the numbers fit into 64 bits, the two
  -- values can be printed, and neither message is longer than a message may be).
  pub send_request_vote-remote :
      (addresses : Assoc Text (Text × ℤ)) (peer host s t out : Text) (port : ℤ) (l : Link G)
      (fd : ℕ) (far : Connection H) (args : RequestVoteArgs) (reply : RequestVoteReply)
      (node after : RaftNode) (v : H.World)
      → lookup peer addresses ≡ some (host, port)
      → VoteArgsFit args
      → reply.term < u64
      → IsPrintable K (vote_request_value K args) s
      → IsPrintable K (vote_reply_value K reply) t
      → length (vote_message s) ≤ 1048576
      → length (vote_answer t) ≤ 1048576
      → far.raft_node ≡ some node
      → handle_request_vote (node_env H) node args (once_received far out) ≡ some (reply, after, v)
      → Wired peer (vote_message s) host port l fd far v out
      → ((send_request_vote K addresses peer args l).0 ≡ returns (some reply))
        × ((handle K hash 1 out far).1.raft_node ≡ some after)
  unfolding send_request_vote vote_request
  send_request_vote-remote addresses peer host s t out port l fd far args reply node after v known
        fit small asks answers short short' there run j =
      let done =
        exchange_with-Wired (read_vote_reply K) peer (vote_message s) (vote_answer t) host port l fd
          far after v out (omega arith) short (omega arith) short' j
          (vote_run K F hash (set_world far (once_received far out)) args s t node after reply v fit
            asks.1 answers.0 there run) in
      (
        rw (known, asks.0)
            (done.0 ∙ ap (λ o. returns o) (vote_reply-read K F reply t small answers.1)),
        done.1,
      )

  -- SendAppendEntries over a connection on which all bytes are delivered returns exactly the reply
  -- with which handleAppendEntries of the peer's node answers the request, and the peer keeps the
  -- node that it leaves (the numbers fit into 64 bits, the two values can be printed, and neither
  -- message is longer than a message may be).
  pub send_append_entries-remote :
      (addresses : Assoc Text (Text × ℤ)) (peer host s t out : Text) (port : ℤ) (l : Link G)
      (fd : ℕ) (far : Connection H) (args : AppendEntriesArgs) (reply : AppendEntriesReply)
      (node after : RaftNode) (v : H.World)
      → lookup peer addresses ≡ some (host, port)
      → AppendArgsFit args
      → reply.term < u64
      → IsPrintable K (append_request_value K args) s
      → IsPrintable K (append_reply_value K reply) t
      → length (append_message s) ≤ 1048576
      → length (append_answer t) ≤ 1048576
      → far.raft_node ≡ some node
      → handle_append_entries (node_env H) node args (once_received far out)
        ≡ some (reply, after, v)
      → Wired peer (append_message s) host port l fd far v out
      → ((send_append_entries K addresses peer args l).0 ≡ returns (some reply))
        × ((handle K hash 1 out far).1.raft_node ≡ some after)
  unfolding send_append_entries append_request
  send_append_entries-remote addresses peer host s t out port l fd far args reply node after v known
        fit small asks answers short short' there run j =
      let done =
        exchange_with-Wired (read_append_reply K) peer (append_message s) (append_answer t) host
          port l fd far after v out (omega arith) short (omega arith) short' j
          (append_run K F hash (set_world far (once_received far out)) args s t node after reply v
            fit asks.1 answers.0 there run) in
      (
        rw (known, asks.0)
            (done.0 ∙ ap (λ o. returns o) (append_reply-read K F reply t small answers.1)),
        done.1,
      )
