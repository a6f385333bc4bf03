-- ===== src/Connection/Lifetime.antt =====
-- The handlers and the loop of server/Connection.cpp keep what each call of the machine keeps.
use yolo_server.Prelude.{
  codes, refl, ℕ, zero, suc, Bool, true, false, Option, none, some, Text, [], ◌∷◌, drop, ◌+◌,
}
use yolo_server.Prelude.Exec.{Exec, or_throw}
use yolo_server.Json.Interface.{Json}
use yolo_server.Config.Store.{find}
use yolo_server.Codec.Frame.{YoloFrame, frame_value, encode, decode, read_frame}
use yolo_server.Host.{Host, host_socket}
use yolo_server.Server.Command.{
  CommandType, parse_command, ping, store, get, raft_request_vote, raft_append_entries, unknown,
}
use yolo_server.Server.Keeping.{recv_message-keeps}
use yolo_server.Cluster.Router.{NodeInfo, pick_node}
use yolo_server.Raft.Types.{RaftNode, RequestVoteArgs, AppendEntriesArgs}
use yolo_server.Raft.Node.{handle_request_vote, handle_append_entries}
use yolo_server.Raft.Keeping.{KeptIn, handle_request_vote-keeps, handle_append_entries-keeps}
use yolo_server.Rpc.Messages.{payload, read_vote_args, vote_reply, append_reply}
use yolo_server.Rpc.Arguments.{read_append_args}
use yolo_server.Connection.Payload.{read_append_args-Keeps}
use yolo_server.Connection.State.{Connection, reply_with, put_in, get_from_storage}
use yolo_server.Connection.Tokens.{get_first_token, second_token}
use yolo_server.Connection.Handlers.{
  handle_ping, handle_unknown, store_locally, store_at, store_frame, store_payload, store_from,
  handle_store, frame_of, get_locally, get_at, get_frame, handle_get, is_self, pick,
}
use yolo_server.Connection.Raft.{
  node_env, on_node, vote_with, vote_on, append_with, append_on, answer, answer_payload,
  handle_raft_request_vote, handle_raft_append_entries,
}
use yolo_server.Connection.Loop.{receive, run_command, handle_message, on_received, handle}
use yolo_server.Connection.Lasting.{
  KeptByCalls, Lasts, Keeps, bind-Keeps, recover-Lasts, or_throw-Keeps, or_fault-Keeps, reply-Keeps,
  put_in-Keeps, get-Keeps, forward_request-Keeps,
}

module _ {H : Host} (P : H.World → Type 0) (Q : KeptByCalls H P) (K : Json) (hash : Text → ℕ) where
  store_locally-Keeps : (f : YoloFrame K) → Keeps P Q (store_locally K hash f)
  unfolding store_locally
  store_locally-Keeps f =
      bind-Keeps P Q (or_throw (encode K f)) _ (or_throw-Keeps P Q (encode K f)) (λ value.
        bind-Keeps P Q (put_in f.image_id value) _ (put_in-Keeps P Q f.image_id value)
          (λ ok. reply-Keeps P Q (codes "STORE OK")))

  store_at-Keeps :
      (msg : Text) (f : YoloFrame K) (node : NodeInfo) (own : Bool)
      → Keeps P Q (store_at K hash msg f node own)
  unfolding store_at
  store_at-Keeps msg f node true c p = store_locally-Keeps f c p
  store_at-Keeps msg f node false c p =
      forward_request-Keeps P Q node msg (codes "ERROR failed to forward STORE request") c p

  pick-Keeps : (key : Text) → Keeps P Q (pick hash key)
  pick-Keeps key c p = or_fault-Keeps P Q (pick_node hash c.nodes key) c p

  store_frame-Keeps : (msg : Text) (f : YoloFrame K) → Keeps P Q (store_frame K hash msg f)
  unfolding store_frame
  store_frame-Keeps msg f =
      bind-Keeps P Q (pick hash f.image_id) _ (pick-Keeps f.image_id)
        (λ node c p. store_at-Keeps msg f node (is_self node c) c p)

  store_payload-Keeps : (msg json_str : Text) → Keeps P Q (store_payload K hash msg json_str)
  unfolding store_payload
  store_payload-Keeps msg json_str =
      bind-Keeps P Q (or_throw (K.parse json_str)) _ (or_throw-Keeps P Q (K.parse json_str)) (λ j.
        bind-Keeps P Q (or_throw (read_frame K j)) _ (or_throw-Keeps P Q (read_frame K j))
          (λ f. store_frame-Keeps msg f))

  store_from-Keeps : (msg : Text) (at : Option ℕ) → Keeps P Q (store_from K hash msg at)
  unfolding store_from
  store_from-Keeps msg none c p = (p, refl)
  store_from-Keeps msg (some at) c p =
      recover-Lasts P Q c.fd (reply_with (codes "ERROR invalid STORE payload"))
        (store_payload K hash msg (drop (at + 1) msg) c)
        (reply-Keeps P Q (codes "ERROR invalid STORE payload"))
        (store_payload-Keeps msg (drop (at + 1) msg) c p)

  frame_of-Keeps : (o : Option Text) → Keeps P Q (frame_of K hash o)
  unfolding frame_of
  frame_of-Keeps none c p = (p, refl)
  frame_of-Keeps (some v) c p = or_throw-Keeps P Q (decode K v) c p

  get_locally-Keeps : (id : Text) → Keeps P Q (get_locally K hash id)
  unfolding get_locally
  get_locally-Keeps id = bind-Keeps P Q (get_from_storage id) _ (get-Keeps P Q id) (λ o.
      bind-Keeps P Q (frame_of K hash o) _ (frame_of-Keeps o) (λ f.
        bind-Keeps P Q (or_throw (K.dump (frame_value K f))) _
          (or_throw-Keeps P Q (K.dump (frame_value K f))) (λ reply. reply-Keeps P Q reply)))

  get_at-Keeps :
      (msg id : Text) (node : NodeInfo) (own : Bool) → Keeps P Q (get_at K hash msg id node own)
  unfolding get_at
  get_at-Keeps msg id node true c p = get_locally-Keeps id c p
  get_at-Keeps msg id node false c p =
      forward_request-Keeps P Q node msg (codes "ERROR failed to forward GET request") c p

  get_frame-Keeps : (msg id : Text) → Keeps P Q (get_frame K hash msg id)
  unfolding get_frame
  get_frame-Keeps msg [] c p = reply-Keeps P Q (codes "ERROR missing image_id") c p
  get_frame-Keeps msg (b ∷ id) c p =
      bind-Keeps P Q (pick hash (b ∷ id)) _ (pick-Keeps (b ∷ id))
        (λ node c1 p1. get_at-Keeps msg (b ∷ id) node (is_self node c1) c1 p1) c p

  on_node-Lasts :
      {R : Type 0} (c : Connection H) (o : Option (R × RaftNode × H.World))
      → P c.world
      → KeptIn (node_env H) P Q.nows Q.draws (λ w k v p. Q.puts w k v p) o
      → Lasts P Q c.fd (on_node c o)
  on_node-Lasts c none p h = (p, refl)
  on_node-Lasts c (some (reply, node, w)) p h = (h, refl)

  vote_on-Keeps : (args : RequestVoteArgs) → Keeps P Q (vote_on args)
  unfolding vote_on
  vote_on-Keeps args c p = by_node c.raft_node
    where
      by_node : (o : Option RaftNode) → Lasts P Q c.fd (vote_with args o c)
      by_node none = (p, refl)
      by_node (some node) = on_node-Lasts c (handle_request_vote (node_env H) node args c.world) p (
          handle_request_vote-keeps (node_env H) P Q.nows Q.draws (λ w k v q. Q.puts w k v q) node
            args c.world p)

  append_on-Keeps : (args : AppendEntriesArgs) → Keeps P Q (append_on args)
  unfolding append_on
  append_on-Keeps args c p = by_node c.raft_node
    where
      by_node : (o : Option RaftNode) → Lasts P Q c.fd (append_with args o c)
      by_node none = (p, refl)
      by_node (some node) =
          on_node-Lasts c (handle_append_entries (node_env H) node args c.world) p (
            handle_append_entries-keeps (node_env H) P Q.nows Q.draws (λ w k v q. Q.puts w k v q)
              node args c.world p)

  module _ {A R : Type 0} (read : K.Value → Exec (Connection H) A) (run : A → Exec (Connection H) R)
      (print : R → Option Text) (reads : (v : K.Value) → Keeps P Q (read v))
      (runs : (a : A) → Keeps P Q (run a)) where
    answer-Keeps : (text : Text) → Keeps P Q (answer K read run print text)
    unfolding answer
    answer-Keeps text =
        bind-Keeps P Q (or_throw (K.parse text)) _ (or_throw-Keeps P Q (K.parse text)) (λ j.
          bind-Keeps P Q (read j) _ (reads j) (λ args.
            bind-Keeps P Q (run args) _ (runs args) (λ reply.
              bind-Keeps P Q (or_throw (print reply)) _ (or_throw-Keeps P Q (print reply))
                (λ text'. reply-Keeps P Q text'))))

    answer_payload-Keeps : (o : Option Text) → Keeps P Q (answer_payload K read run print o)
    unfolding answer_payload
    answer_payload-Keeps none c p = reply-Keeps P Q (codes "ERROR missing payload") c p
    answer_payload-Keeps (some text) c p =
        recover-Lasts P Q c.fd (reply_with (codes "ERROR invalid payload"))
          (answer K read run print text c) (reply-Keeps P Q (codes "ERROR invalid payload"))
          (answer-Keeps text c p)

  run_command-Keeps :
      (msg : Text) (command : CommandType) → Keeps P Q (run_command K hash msg command)
  unfolding run_command handle_ping handle_unknown handle_store handle_get handle_raft_request_vote
      handle_raft_append_entries
  run_command-Keeps msg ping c p = reply-Keeps P Q (codes "PONG") c p
  run_command-Keeps msg store c p = store_from-Keeps msg (find 32 msg) c p
  run_command-Keeps msg get c p = get_frame-Keeps msg (second_token msg) c p
  run_command-Keeps msg raft_request_vote c p =
      answer_payload-Keeps (λ v. or_throw (read_vote_args K v)) vote_on (vote_reply K)
        (λ v. or_throw-Keeps P Q (read_vote_args K v)) vote_on-Keeps (payload msg) c p
  run_command-Keeps msg raft_append_entries c p =
      answer_payload-Keeps (read_append_args K) append_on (append_reply K)
        (read_append_args-Keeps P Q K) append_on-Keeps (payload msg) c p
  run_command-Keeps msg unknown c p = reply-Keeps P Q (codes "ERROR unknown command") c p

  on_received-Keeps :
      (next : Text → Exec (Connection H) Bool) (r : Bool × Text)
      → ((msg : Text) → Keeps P Q (next msg))
      → Keeps P Q (on_received K hash next r)
  unfolding on_received handle_message
  on_received-Keeps next (false, msg) nexts c p = (p, refl)
  on_received-Keeps next (true, msg) nexts c p =
      bind-Keeps P Q (handle_message K hash msg) _
        (run_command-Keeps msg (parse_command (get_first_token msg))) (λ done. nexts msg) c p

  -- The loop, however many messages it handles and however it ends.
  pub handle-Keeps : (fuel : ℕ) (out : Text) → Keeps P Q (handle K hash fuel out)
  unfolding handle
  handle-Keeps zero out c p = (p, refl)
  handle-Keeps (suc fuel) out c p =
      bind-Keeps P Q (receive out) (on_received K hash (handle K hash fuel))
        (λ c1 p1. (
          recv_message-keeps (host_socket H) P (λ w fd len q. Q.recvs w fd len q) c1.fd out c1.world
              p1,
          refl,
        ))
        (λ r. on_received-Keeps (handle K hash fuel) r (handle-Keeps fuel)) c p
