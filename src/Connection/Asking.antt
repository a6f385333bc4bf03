-- ===== src/Connection/Asking.antt =====
-- A call of a RaftNode's handler through server/Connection.cpp.
use yolo_server.Prelude.{sym, subst, ℕ, ◌≡◌, refl, ap, some, Text, ◌++◌, codes, text_eq, ◌<◌}
use yolo_server.Prelude.Exec.{Outcome, returns}
use yolo_server.Json.Interface.{Json, IsFaithful, IsPrintable}
use yolo_server.Config.Store.{find}
use yolo_server.Host.{Host}
use yolo_server.Server.Command.{parse_command}
use yolo_server.Raft.Types.{
  RaftNode, RequestVoteArgs, RequestVoteReply, AppendEntriesArgs, AppendEntriesReply,
}
use yolo_server.Raft.Node.{handle_request_vote, handle_append_entries}
use yolo_server.Rpc.Messages.{
  append_request, prefixed, vote_request, vote_request_value, vote_reply, vote_reply_value,
  read_vote_reply, append_request_value, append_reply, append_reply_value, read_append_reply,
}
use yolo_server.Rpc.Exchange.{read_reply}
use yolo_server.Rpc.Wire.{
  u64, VoteArgsFit, AppendArgsFit, read_vote_args-value, read_append_args-value, vote_reply-read,
  append_reply-read,
}
use yolo_server.Connection.State.{Connection, reply_with}
use yolo_server.Connection.Machine.{IsReliable, reply-sent}
use yolo_server.Server.Headers.{frame}
use yolo_server.Connection.Tokens.{skip_spaces, span_word, read_word, get_first_token}
use yolo_server.Connection.Raft.{
  node_env, vote_on, append_on, answer, answer_payload, handle_raft_request_vote,
  handle_raft_append_entries,
}
use yolo_server.Connection.Loop.{run_command, handle_message}

module _ {H : Host} where
  -- The connection once its node has handled a request.
  abbrev pub with_node : Connection H → RaftNode → H.World → Connection H
  with_node c node w = record c { raft_node = some node; world = w }

module _ {H : Host} (K : Json) (F : IsFaithful K) (hash : Text → ℕ) where
  pub vote_run :
      (c : Connection H) (args : RequestVoteArgs) (s t : Text) (node after : RaftNode)
      (reply : RequestVoteReply) (w : H.World)
      → VoteArgsFit args
      → K.parse s ≡ some (vote_request_value K args)
      → K.dump (vote_reply_value K reply) ≡ some t
      → c.raft_node ≡ some node
      → handle_request_vote (node_env H) node args c.world ≡ some (reply, after, w)
      → handle_message K hash (codes "RAFT_REQUEST_VOTE " ++ s) c
        ≡ reply_with (codes "RAFT_REQUEST_VOTE_REPLY " ++ t) (with_node c after w)
  unfolding handle_message run_command parse_command get_first_token read_word span_word skip_spaces
      text_eq handle_raft_request_vote answer_payload answer vote_on find vote_reply
  vote_run c args s t node after reply w fit parsed printed there run =
      rw (parsed, read_vote_args-value K F args fit, there, run, printed) refl

  pub append_run :
      (c : Connection H) (args : AppendEntriesArgs) (s t : Text) (node after : RaftNode)
      (reply : AppendEntriesReply) (w : H.World)
      → AppendArgsFit args
      → K.parse s ≡ some (append_request_value K args)
      → K.dump (append_reply_value K reply) ≡ some t
      → c.raft_node ≡ some node
      → handle_append_entries (node_env H) node args c.world ≡ some (reply, after, w)
      → handle_message K hash (codes "RAFT_APPEND_ENTRIES " ++ s) c
        ≡ reply_with (codes "RAFT_APPEND_ENTRIES_REPLY " ++ t) (with_node c after w)
  unfolding handle_message run_command parse_command get_first_token read_word span_word skip_spaces
      text_eq handle_raft_append_entries answer_payload answer append_on find append_reply
  append_run c args s t node after reply w fit parsed printed there run =
      rw (parsed, read_append_args-value K F c args fit, there, run, printed) refl

module _ {H : Host} (R : IsReliable H) (K : Json) (F : IsFaithful K) (hash : Text → ℕ) where
  open R.stream use {sent}

  -- The message was handled, the server's node is `after`, and `text` was sent to the client.
  abbrev pub Answered :
      Connection H → RaftNode → H.World → Text → Outcome (Unit {0}) × Connection H → Type 0
  Answered c after w text (result, c1) =
      (result ≡ returns tt)
      × (c1.raft_node ≡ some after)
      × (sent c1.world c.fd ≡ sent w c.fd ++ frame text)

  reply-Answered :
      (c : Connection H) (after : RaftNode) (w : H.World) (text : Text)
      → Answered c after w text (reply_with text (with_node c after w))
  reply-Answered c after w text = (refl, refl, reply-sent R text (with_node c after w))

  -- On a machine on which nothing fails, the message of sendRequestVote to a server with a node is
  -- handled by handleRequestVote of the node: the server keeps the node that it leaves, and the
  -- client is sent a text that sendRequestVote reads as its reply (the numbers fit into 64 bits,
  -- and the two values can be printed).
  pub handle_message-vote_request :
      (c : Connection H) (args : RequestVoteArgs) (s t : Text) (node after : RaftNode)
      (reply : RequestVoteReply) (w : H.World)
      → VoteArgsFit args
      → reply.term < u64
      → IsPrintable K (vote_request_value K args) s
      → IsPrintable K (vote_reply_value K reply) t
      → c.raft_node ≡ some node
      → handle_request_vote (node_env H) node args c.world ≡ some (reply, after, w)
      → (msg text : Text) × (vote_request K args ≡ some msg)
        × Answered c after w text (handle_message K hash msg c)
        × (read_reply K (read_vote_reply K) text ≡ some reply)
  unfolding vote_request
  handle_message-vote_request c args s t node after reply w fit small asks answers there run = (
    codes "RAFT_REQUEST_VOTE " ++ s,
    codes "RAFT_REQUEST_VOTE_REPLY " ++ t,
    ap (prefixed (codes "RAFT_REQUEST_VOTE ")) asks.0,
    subst (Answered c after w (codes "RAFT_REQUEST_VOTE_REPLY " ++ t))
        (sym (vote_run K F hash c args s t node after reply w fit asks.1 answers.0 there run))
        (reply-Answered c after w (codes "RAFT_REQUEST_VOTE_REPLY " ++ t)),
    vote_reply-read K F reply t small answers.1,
  )

  -- On a machine on which nothing fails, the message of sendAppendEntries to a server with a node
  -- is handled by handleAppendEntries of the node: the server keeps the node that it leaves, and
  -- the client is sent a text that sendAppendEntries reads as its reply (the numbers fit into 64
  -- bits, and the two values can be printed).
  pub handle_message-append_request :
      (c : Connection H) (args : AppendEntriesArgs) (s t : Text) (node after : RaftNode)
      (reply : AppendEntriesReply) (w : H.World)
      → AppendArgsFit args
      → reply.term < u64
      → IsPrintable K (append_request_value K args) s
      → IsPrintable K (append_reply_value K reply) t
      → c.raft_node ≡ some node
      → handle_append_entries (node_env H) node args c.world ≡ some (reply, after, w)
      → (msg text : Text) × (append_request K args ≡ some msg)
        × Answered c after w text (handle_message K hash msg c)
        × (read_reply K (read_append_reply K) text ≡ some reply)
  unfolding append_request
  handle_message-append_request c args s t node after reply w fit small asks answers there run = (
    codes "RAFT_APPEND_ENTRIES " ++ s,
    codes "RAFT_APPEND_ENTRIES_REPLY " ++ t,
    ap (prefixed (codes "RAFT_APPEND_ENTRIES ")) asks.0,
    subst (Answered c after w (codes "RAFT_APPEND_ENTRIES_REPLY " ++ t))
        (sym (append_run K F hash c args s t node after reply w fit asks.1 answers.0 there run))
        (reply-Answered c after w (codes "RAFT_APPEND_ENTRIES_REPLY " ++ t)),
    append_reply-read K F reply t small answers.1,
  )
