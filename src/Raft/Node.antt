-- ===== src/Raft/Node.antt =====
-- raft/RaftNode.cpp: the constructor, the RPC handlers, the client's call and the state machine.
-- Each public method holds the mutex from start to end, so it is one step of the node. `none` is
-- undefined behaviour: a read past the end of `logs`.
use yolo_server.Prelude.{
  ℕ, ℤ, zero, suc, ◌+◌, ◌-◌, min, Bool, true, false, ◌&&◌, ◌||◌, Option, none, some, List, [], ◌∷◌,
  ◌++◌, ltb, leb, ◌==◌, if◌then◌else◌, ◌>>=◌, get_elem?, take, back, add64, Text, text_eq,
}
use yolo_server.Prelude.Assoc.{insert, text_key}
use yolo_server.Raft.Types.{
  follower, LogEntry, RequestVoteArgs, RequestVoteReply, AppendEntriesArgs, AppendEntriesReply,
  RaftNode, is_leader,
}
use yolo_server.Raft.Env.{Env}

abbrev pub dummy_entry : LogEntry
dummy_entry = record { term = 0; index = 0; key = []; value = [] }

-- setPeerAddress
unfoldable pub set_peer_address : RaftNode → Text → Text → ℤ → RaftNode
set_peer_address n peer_id host port = record n {
  peer_addresses = insert peer_id (host, port) n.peer_addresses;
}

-- The three statements of every retreat to a follower of a newer term.
unfoldable pub step_down : ℕ → RaftNode → RaftNode
step_down term n = record n { current_term = term; state = follower; voted_for = [] }

unfoldable pub log_is_up_to_date : RequestVoteArgs → LogEntry → Bool
log_is_up_to_date args last =
    ltb last.term args.last_log_term
    || (args.last_log_term == last.term && leb last.index args.last_log_index)

unfoldable pub may_vote : RaftNode → RequestVoteArgs → LogEntry → Bool
unfolding log_is_up_to_date
may_vote n args last =
    (text_eq n.voted_for [] || text_eq n.voted_for args.candidate_id) && log_is_up_to_date args last

-- The first lines of handleRequestVote that touch the state: a newer term is adopted.
unfoldable pub adopt_term : ℕ → RaftNode → RaftNode
unfolding step_down
adopt_term term n = if ltb n.current_term term then step_down term n else n

-- The loop of handleAppendEntries over entries that are already there. The third argument is
-- `entries` from `entryIndex` on, and what is left of it comes back.
unfoldable pub reconcile : List LogEntry → ℕ → List LogEntry → List LogEntry × List LogEntry
reconcile logs next [] = (logs, [])
reconcile logs next (e ∷ es) = elim (get_elem? logs next) [
  | none ↦ (logs, e ∷ es)
  | some l ↦ elim (l.term == e.term) [
    | true ↦ reconcile logs (next + 1) es
    | false ↦ (take next logs, e ∷ es)
  ]
]

-- The merged log: what the loop leaves, with the remaining entries pushed behind it.
unfoldable pub merge_entries : List LogEntry → AppendEntriesArgs → List LogEntry
unfolding reconcile
merge_entries logs args =
    let (kept, left) = reconcile logs (args.prev_log_index + 1) args.entries in kept ++ left

-- The negation of the test that rejects a request: the entry before the new ones is there.
unfoldable pub log_matches : List LogEntry → AppendEntriesArgs → Bool
log_matches logs args = elim (get_elem? logs args.prev_log_index) [
  | none ↦ false
  | some l ↦ l.term == args.prev_log_term
]

abbrev pub new_entry : ℕ → ℕ → Text → Text → LogEntry
new_entry term index key value = record { term = term; index = index; key = key; value = value }

-- submitLog
unfoldable pub submit_log : RaftNode → Text → Text → Option (Bool × RaftNode)
submit_log n key value =
    if is_leader n.state
    then (back n.logs >>= λ last. some (
      true,
      record n { logs = n.logs ++ new_entry n.current_term (add64 last.index 1) key value ∷ [] },
    ))
    else some (false, n)

module _ (E : Env) where
  open E use {World, now, draw_timeout, put}

  -- resetElectionTimer
  unfoldable pub reset_election_timer : RaftNode → World → RaftNode × World
  reset_election_timer n w =
      let (timeout, w1) = draw_timeout w in
      let (t, w2) = now w1 in
      (record n { election_timeout_ms = timeout; last_heartbeat_time = t }, w2)

  -- The constructor.
  unfoldable pub init : Text → List Text → World → RaftNode × World
  unfolding reset_election_timer
  init id peer_ids w =
      reset_election_timer
        (record {
          node_id = id;
          peers = peer_ids;
          peer_addresses = [];
          running = false;
          current_term = 0;
          voted_for = [];
          logs = dummy_entry ∷ [];
          commit_index = 0;
          last_applied = 0;
          next_index = [];
          match_index = [];
          state = follower;
          last_heartbeat_time = 0;
          election_timeout_ms = 0;
        })
        w

  unfoldable pub cast_vote :
      RaftNode → RequestVoteArgs → World → RequestVoteReply × RaftNode × World
  unfolding reset_election_timer
  cast_vote n args w =
      let (n1, w1) = reset_election_timer (record n { voted_for = args.candidate_id }) w in
      (record { term = n1.current_term; vote_granted = true }, n1, w1)

  -- Step 2 of handleRequestVote.
  unfoldable pub answer_vote :
      RaftNode → RequestVoteArgs → World → LogEntry → RequestVoteReply × RaftNode × World
  unfolding may_vote cast_vote
  answer_vote n args w last =
      if may_vote n args last
      then cast_vote n args w
      else (record { term = n.current_term; vote_granted = false }, n, w)

  -- handleRequestVote
  unfoldable pub handle_request_vote :
      RaftNode → RequestVoteArgs → World → Option (RequestVoteReply × RaftNode × World)
  unfolding adopt_term answer_vote
  handle_request_vote n args w =
      if ltb args.term n.current_term
      then some (record { term = n.current_term; vote_granted = false }, n, w)
      else (let n1 = adopt_term args.term n in
          back n1.logs >>= λ last. some (answer_vote n1 args w last))

  -- The loop of applyCommittedLogs. A failed put is only logged by the source.
  unfoldable pub apply_loop : ℕ → RaftNode → World → Option (RaftNode × World)
  apply_loop zero n w = if ltb n.last_applied n.commit_index then none else some (n, w)
  apply_loop (suc fuel) n w = elim (ltb n.last_applied n.commit_index) [
    | false ↦ some (n, w)
    | true ↦ elim (get_elem? n.logs (n.last_applied + 1)) [
      | none ↦ none
      | some entry ↦
          apply_loop fuel (record n { last_applied = n.last_applied + 1 })
            (put w entry.key entry.value).1
    ]
  ]

  -- applyCommittedLogs: each round raises `last_applied` by one, so the difference is enough fuel.
  unfoldable pub apply_committed_logs : RaftNode → World → Option (RaftNode × World)
  unfolding apply_loop
  apply_committed_logs n w = apply_loop (n.commit_index - n.last_applied) n w

  -- Step 5 of handleAppendEntries.
  unfoldable pub advance_commit : RaftNode → ℕ → World → Option (RaftNode × World)
  advance_commit n leader_commit w =
      if ltb n.commit_index leader_commit
      then (back n.logs >>= λ last.
          apply_committed_logs (record n { commit_index = min leader_commit last.index }) w)
      else some (n, w)

  abbrev pub accepted : RaftNode × World → AppendEntriesReply × RaftNode × World
  accepted (n, w) = (record { term = n.current_term; success = true }, n, w)

  -- handleAppendEntries from step 2 on. A rejection carries the term from before the request.
  unfoldable pub append_entries :
      ℕ → RaftNode → AppendEntriesArgs → World → Option (AppendEntriesReply × RaftNode × World)
  append_entries old_term n args w =
      if log_matches n.logs args
      then (advance_commit (record n { logs = merge_entries n.logs args }) args.leader_commit w
          >>= λ r. some (accepted r))
      else some (record { term = old_term; success = false }, n, w)

  -- handleAppendEntries
  unfoldable pub handle_append_entries :
      RaftNode → AppendEntriesArgs → World → Option (AppendEntriesReply × RaftNode × World)
  unfolding reset_election_timer append_entries
  handle_append_entries n args w =
      if ltb args.term n.current_term
      then some (record { term = n.current_term; success = false }, n, w)
      else (let (n1, w1) =
            reset_election_timer (record n { state = follower; current_term = args.term }) w in
          append_entries n.current_term n1 args w1)
