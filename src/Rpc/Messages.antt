-- ===== src/Rpc/Messages.antt =====
-- The messages between RaftNodes: written and read by raft/RaftNode.cpp on the side that asks, and by
-- server/Connection.cpp on the side that answers. `none` is an exception of the JSON library.
use yolo_server.Prelude.{
  ℕ, ◌+◌, Bool, Option, none, some, ◌>>=◌, Text, List, [], ◌∷◌, ◌++◌, drop, codes,
}
use yolo_server.Json.Interface.{Json}
use yolo_server.Config.Store.{find}
use yolo_server.Raft.Types.{
  LogEntry, RequestVoteArgs, RequestVoteReply, AppendEntriesArgs, AppendEntriesReply,
}

-- The text behind the first space.
abbrev pub behind : Text → Option ℕ → Option Text
behind msg none = none
behind msg (some pos) = some (drop (pos + 1) msg)

abbrev pub payload : Text → Option Text
payload msg = behind msg (find 32 msg)

-- A command word in front of what dump prints.
abbrev pub prefixed : Text → Option Text → Option Text
prefixed word none = none
prefixed word (some s) = some (word ++ s)

module _ (K : Json) where
  open K use {
    Value, parse, dump, text, unsigned, boolean, array, object, index, contains, elements, get_text,
    get_unsigned, get_boolean,
  }

  abbrev pub unsigned_in : Value → Text → Option ℕ
  unsigned_in v key = index v key >>= get_unsigned

  abbrev pub text_in : Value → Text → Option Text
  text_in v key = index v key >>= get_text

  abbrev pub boolean_in : Value → Text → Option Bool
  boolean_in v key = index v key >>= get_boolean

  -- json::parse, and what is read from the value.
  abbrev pub read_text : {R : Type 0} → (Value → Option R) → Text → Option R
  read_text read s = parse s >>= read

  -- sendRequestVote: j_args and msg.
  unfoldable pub vote_request_value : RequestVoteArgs → Value
  vote_request_value a = object (
      (codes "term", unsigned a.term)
      ∷ (codes "candidateId", text a.candidate_id)
      ∷ (codes "lastLogIndex", unsigned a.last_log_index)
      ∷ (codes "lastLogTerm", unsigned a.last_log_term)
      ∷ [])

  unfoldable pub vote_request : RequestVoteArgs → Option Text
  vote_request a = prefixed (codes "RAFT_REQUEST_VOTE ") (dump (vote_request_value a))

  -- handleRaftRequestVote: the arguments from the payload.
  unfoldable pub read_vote_args : Value → Option RequestVoteArgs
  read_vote_args v = do
    term ← unsigned_in v (codes "term")
    candidate_id ← text_in v (codes "candidateId")
    last_log_index ← unsigned_in v (codes "lastLogIndex")
    last_log_term ← unsigned_in v (codes "lastLogTerm")
    some (record {
      term = term;
      candidate_id = candidate_id;
      last_log_index = last_log_index;
      last_log_term = last_log_term;
    })

  -- handleRaftRequestVote: j_reply and reply_str.
  unfoldable pub vote_reply_value : RequestVoteReply → Value
  vote_reply_value r =
      object ((codes "term", unsigned r.term) ∷ (codes "voteGranted", boolean r.vote_granted) ∷ [])

  unfoldable pub vote_reply : RequestVoteReply → Option Text
  vote_reply r = prefixed (codes "RAFT_REQUEST_VOTE_REPLY ") (dump (vote_reply_value r))

  -- sendRequestVote: the reply from its payload.
  unfoldable pub read_vote_reply : Value → Option RequestVoteReply
  read_vote_reply v = do
    term ← unsigned_in v (codes "term")
    vote_granted ← boolean_in v (codes "voteGranted")
    some (record { term = term; vote_granted = vote_granted })

  -- sendAppendEntries: j_args and msg.
  abbrev pub entry_value : LogEntry → Value
  entry_value e = object (
      (codes "term", unsigned e.term)
      ∷ (codes "index", unsigned e.index)
      ∷ (codes "key", text e.key)
      ∷ (codes "value", text e.value)
      ∷ [])

  abbrev pub entry_values : List LogEntry → List Value
  entry_values [] = []
  entry_values (e ∷ es) = entry_value e ∷ entry_values es

  unfoldable pub append_request_value : AppendEntriesArgs → Value
  append_request_value a = object (
      (codes "term", unsigned a.term)
      ∷ (codes "leaderId", text a.leader_id)
      ∷ (codes "prevLogIndex", unsigned a.prev_log_index)
      ∷ (codes "prevLogTerm", unsigned a.prev_log_term)
      ∷ (codes "leaderCommit", unsigned a.leader_commit)
      ∷ (codes "entries", array (entry_values a.entries))
      ∷ [])

  unfoldable pub append_request : AppendEntriesArgs → Option Text
  append_request a = prefixed (codes "RAFT_APPEND_ENTRIES ") (dump (append_request_value a))

  -- handleRaftAppendEntries: j_reply and reply_str.
  unfoldable pub append_reply_value : AppendEntriesReply → Value
  append_reply_value r =
      object ((codes "term", unsigned r.term) ∷ (codes "success", boolean r.success) ∷ [])

  unfoldable pub append_reply : AppendEntriesReply → Option Text
  append_reply r = prefixed (codes "RAFT_APPEND_ENTRIES_REPLY ") (dump (append_reply_value r))

  -- sendAppendEntries: the reply from its payload.
  unfoldable pub read_append_reply : Value → Option AppendEntriesReply
  read_append_reply v = do
    term ← unsigned_in v (codes "term")
    success ← boolean_in v (codes "success")
    some (record { term = term; success = success })
