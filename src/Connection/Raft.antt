-- ===== src/Connection/Raft.antt =====
-- handleRaftRequestVote and handleRaftAppendEntries of server/Connection.cpp.
use yolo_server.Prelude.{false, Option, none, some, Text, codes}
use yolo_server.Prelude.Exec.{Exec, Outcome, returns, fault, pure, or_throw, catch, ◌>>=◌}
use yolo_server.Json.Interface.{Json}
use yolo_server.Host.{Host}
use yolo_server.Raft.Types.{
  RaftNode, RequestVoteArgs, RequestVoteReply, AppendEntriesArgs, AppendEntriesReply,
}
use yolo_server.Raft.Env.{Env}
use yolo_server.Raft.Node.{handle_request_vote, handle_append_entries}
use yolo_server.Rpc.Messages.{payload, read_vote_args, vote_reply, append_reply}
use yolo_server.Rpc.Arguments.{read_append_args}
use yolo_server.Connection.State.{Connection, reply_with}

-- The machine as a node sees it, with the database of an open storage. The two handlers of a node do
-- not call a peer.
abbrev pub node_env : Host → Env
node_env H = record {
  World = H.World;
  now = H.now;
  draw_timeout = H.draw_timeout;
  put = λ w key value. H.put key value w;
  send_request_vote = λ w peer args. (none, w);
  send_append_entries = λ w peer args. (none, w);
  timeout_range = H.timeout_range;
}

module _ {H : Host} where
  -- The result of a handler of the node; `none` is undefined behaviour.
  abbrev pub on_node :
      {R : Type 0} → Connection H → Option (R × RaftNode × H.World) → Outcome R × Connection H
  on_node c none = (fault, c)
  on_node c (some (reply, node, w)) = (returns reply, record c { raft_node = some node; world = w })

  abbrev pub vote_with : RequestVoteArgs → Option RaftNode → Exec (Connection H) RequestVoteReply
  vote_with args none c = pure (record { term = args.term; vote_granted = false }) c
  vote_with args (some node) c = on_node c (handle_request_vote (node_env H) node args c.world)

  -- The reply of m_raft_node, or of a server without one.
  unfoldable pub vote_on : RequestVoteArgs → Exec (Connection H) RequestVoteReply
  vote_on args c = vote_with args c.raft_node c

  abbrev pub append_with :
      AppendEntriesArgs → Option RaftNode → Exec (Connection H) AppendEntriesReply
  append_with args none c = pure (record { term = args.term; success = false }) c
  append_with args (some node) c = on_node c (handle_append_entries (node_env H) node args c.world)

  unfoldable pub append_on : AppendEntriesArgs → Exec (Connection H) AppendEntriesReply
  append_on args c = append_with args c.raft_node c

  module _ (K : Json) {A R : Type 0} where
    -- The try block of both handlers.
    unfoldable pub answer :
        (K.Value → Exec (Connection H) A)
        → (A → Exec (Connection H) R)
        → (R → Option Text)
        → Text
        → Exec (Connection H) Unit
    answer read run print text = do
      j ← or_throw (K.parse text)
      args ← read j
      reply ← run args
      reply_str ← or_throw (print reply)
      reply_with reply_str

    unfoldable pub answer_payload :
        (K.Value → Exec (Connection H) A)
        → (A → Exec (Connection H) R)
        → (R → Option Text)
        → Option Text
        → Exec (Connection H) Unit
    answer_payload read run print none = reply_with (codes "ERROR missing payload")
    answer_payload read run print (some text) =
        catch (answer read run print text) (reply_with (codes "ERROR invalid payload"))

  module _ (K : Json) where
    -- handleRaftRequestVote
    unfoldable pub handle_raft_request_vote : Text → Exec (Connection H) Unit
    handle_raft_request_vote msg =
        answer_payload K (λ v. or_throw (read_vote_args K v)) vote_on (vote_reply K) (payload msg)

    -- handleRaftAppendEntries
    unfoldable pub handle_raft_append_entries : Text → Exec (Connection H) Unit
    handle_raft_append_entries msg =
        answer_payload K (read_append_args K) append_on (append_reply K) (payload msg)
