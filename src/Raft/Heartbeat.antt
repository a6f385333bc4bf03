-- ===== src/Raft/Heartbeat.antt =====
-- raft/RaftNode.cpp: heartbeatLoop. One pass over the peers under the mutex is one step. `none` is
-- undefined behaviour: a read past the end of a vector.
use yolo_server.Prelude.{
  ℕ, ◌-◌, ◌/◌, Bool, true, false, Option, none, some, List, [], ◌∷◌, ltb, leb, ◌==◌, if◌then◌else◌,
  ◌>>=◌, length, get_elem?, drop, add64, sub64, Text,
}
use yolo_server.Prelude.Assoc.{Assoc, lookup, insert, text_key, values}
use yolo_server.Raft.Types.{LogEntry, AppendEntriesArgs, AppendEntriesReply, RaftNode, is_leader}
use yolo_server.Raft.Env.{Env}
use yolo_server.Raft.Node.{step_down, apply_committed_logs}

-- `m[peer]` where it is read: a missing key reads as 0.
unfoldable pub index_of : Text → Assoc Text ℕ → ℕ
index_of p m = elim (lookup p m) [ none ↦ 0 | some i ↦ i ]

-- `operator[]` also enters the missing key.
unfoldable pub touch : Text → Assoc Text ℕ → Assoc Text ℕ
touch p m = insert p (index_of p m) m

-- std::sort with std::greater
unfoldable pub insert_desc : ℕ → List ℕ → List ℕ
insert_desc x [] = x ∷ []
insert_desc x (y ∷ ys) = if leb y x then x ∷ y ∷ ys else y ∷ insert_desc x ys

unfoldable pub sort_desc : List ℕ → List ℕ
unfolding insert_desc
sort_desc [] = []
sort_desc (x ∷ xs) = insert_desc x (sort_desc xs)

-- `matchIndices`: the leader's own last position, then what it believes of the peers.
unfoldable pub match_indices : RaftNode → List ℕ
match_indices n = sub64 (length n.logs) 1 ∷ values n.match_index

-- `newCommitIndex`
unfoldable pub new_commit_index : RaftNode → Option ℕ
unfolding match_indices sort_desc
new_commit_index n =
    let found = match_indices n in get_elem? (sort_desc found) (sub64 (length found) 1 / 2)

-- The request for one peer. The source collects the entries from `nextIndex` on in a local
-- vector, whose size it uses after the reply; it never stores them in `args.entries`.
unfoldable pub heartbeat_args : RaftNode → ℕ → LogEntry → AppendEntriesArgs
heartbeat_args n next prev = record {
  term = n.current_term;
  leader_id = n.node_id;
  prev_log_index = sub64 next 1;
  prev_log_term = prev.term;
  entries = [];
  leader_commit = n.commit_index;
}

unfoldable pub collected_entries : RaftNode → ℕ → List LogEntry
collected_entries n next = drop next n.logs

-- The two assignments after a success.
unfoldable pub record_success : RaftNode → Text → ℕ → RaftNode
unfolding collected_entries
record_success n p next =
    let next' = add64 next (length (collected_entries n next)) in
    record n {
      next_index = insert p next' n.next_index;
      match_index = insert p (sub64 next' 1) n.match_index;
    }

-- The retry after a mismatch.
unfoldable pub step_back : RaftNode → Text → RaftNode
step_back n p =
    let next = index_of p n.next_index in
    if ltb 1 next then record n { next_index = insert p (next - 1) n.next_index } else n

module _ (E : Env) where
  open E use {World, send_append_entries}

  -- The commit test, once `newCommitIndex` is known.
  unfoldable pub commit_if_current : RaftNode → ℕ → World → Option (RaftNode × World)
  commit_if_current n candidate w =
      if ltb n.commit_index candidate
      then (get_elem? n.logs candidate >>= λ entry.
          if entry.term == n.current_term
          then apply_committed_logs E (record n { commit_index = candidate }) w
          else some (n, w))
      else some (n, w)

  unfoldable pub advance_leader_commit : RaftNode → World → Option (RaftNode × World)
  unfolding new_commit_index commit_if_current
  advance_leader_commit n w = new_commit_index n >>= λ candidate. commit_if_current n candidate w

  abbrev pub going_on : RaftNode × World → Bool × RaftNode × World
  going_on (n, w) = (true, n, w)

  -- What the leader does with the reply of peer `p`, asked from `next` on. The Boolean says
  -- whether the pass goes on to the next peer.
  unfoldable pub handle_reply :
      RaftNode → Text → ℕ → Option AppendEntriesReply → World → Option (Bool × RaftNode × World)
  unfolding record_success advance_leader_commit step_down step_back
  handle_reply n p next none w = some (true, n, w)
  handle_reply n p next (some reply) w =
      if reply.success
      then (advance_leader_commit (record_success n p next) w >>= λ r. some (going_on r))
      else if ltb n.current_term reply.term
      then some (false, step_down reply.term n, w)
      else some (true, step_back n p, w)

  -- The body of the loop over the peers.
  unfoldable pub heartbeat_peer : RaftNode → Text → World → Option (Bool × RaftNode × World)
  unfolding touch heartbeat_args handle_reply
  heartbeat_peer n p w =
      let next = index_of p n.next_index in
      let n1 = record n { next_index = touch p n.next_index } in
      get_elem? n1.logs (sub64 next 1) >>= λ prev.
      (let (reply, w1) = send_append_entries w p (heartbeat_args n1 next prev) in
        handle_reply n1 p next reply w1)

  unfoldable pub heartbeat_peers : List Text → RaftNode → World → Option (RaftNode × World)
  heartbeat_peers [] n w = some (n, w)
  heartbeat_peers (p ∷ ps) n w = elim (heartbeat_peer n p w) [
    | none ↦ none
    | some (true, n1, w1) ↦ heartbeat_peers ps n1 w1
    | some (false, n1, w1) ↦ some (n1, w1)
  ]

  -- One pass of heartbeatLoop.
  unfoldable pub heartbeat_round : RaftNode → World → Option (RaftNode × World)
  unfolding heartbeat_peer heartbeat_peers
  heartbeat_round n w =
      let sent = heartbeat_peers n.peers n w in if is_leader n.state then sent else some (n, w)
