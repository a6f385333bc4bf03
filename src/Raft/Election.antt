-- ===== src/Raft/Election.antt =====
-- raft/RaftNode.cpp: electionLoop and startElection. One round of the loop is one step; it keeps
-- the mutex while it asks the peers.
use yolo_server.Prelude.{
  ℕ, ◌+◌, ◌-◌, ◌/◌, not, ◌&&◌, Option, none, some, List, [], ◌∷◌, ltb, leb, if◌then◌else◌, ◌>>=◌,
  length, back, add64, Text,
}
use yolo_server.Prelude.Assoc.{insert, text_key}
use yolo_server.Raft.Types.{
  candidate, leader, LogEntry, RequestVoteArgs, RequestVoteReply, RaftNode, is_leader,
}
use yolo_server.Raft.Env.{Env}
use yolo_server.Raft.Node.{step_down, reset_election_timer}

-- The first statements of startElection, before the timer is reset.
unfoldable pub become_candidate : RaftNode → RaftNode
become_candidate n = record n {
  state = candidate;
  current_term = add64 n.current_term 1;
  voted_for = n.node_id;
}

unfoldable pub request_vote_args : RaftNode → LogEntry → RequestVoteArgs
request_vote_args n last = record {
  term = n.current_term;
  candidate_id = n.node_id;
  last_log_index = last.index;
  last_log_term = last.term;
}

unfoldable pub majority : RaftNode → ℕ
majority n = (length n.peers + 1) / 2 + 1

-- `for (peer : m_peers) { m_nextIndex[peer] = m_logs.size(); m_matchIndex[peer] = 0; }`
unfoldable pub init_progress : List Text → RaftNode → RaftNode
init_progress [] n = n
init_progress (p ∷ ps) n = init_progress ps (record n {
  next_index = insert p (length n.logs) n.next_index;
  match_index = insert p 0 n.match_index;
})

unfoldable pub become_leader : RaftNode → RaftNode
unfolding init_progress
become_leader n = init_progress n.peers (record n { state = leader })

-- What one reply does: a vote is counted, and a newer term ends the election (`none`).
unfoldable pub count_reply : RaftNode → ℕ → Option RequestVoteReply → RaftNode × Option ℕ
unfolding step_down
count_reply n votes none = (n, some votes)
count_reply n votes (some reply) =
    if reply.vote_granted
    then (n, some (votes + 1))
    else if ltb n.current_term reply.term
    then (step_down reply.term n, none)
    else (n, some votes)

-- The test after the loop.
unfoldable pub conclude : RaftNode → Option ℕ → RaftNode
unfolding majority become_leader
conclude n none = n
conclude n (some votes) = if leb (majority n) votes then become_leader n else n

module _ (E : Env) where
  open E use {World, now, send_request_vote}

  -- The loop over the peers; the early return of the source leaves the votes at `none`.
  unfoldable pub collect_votes :
      List Text → RequestVoteArgs → RaftNode → ℕ → World → RaftNode × Option ℕ × World
  unfolding count_reply
  collect_votes [] args n votes w = (n, some votes, w)
  collect_votes (p ∷ ps) args n votes w =
      let (reply, w1) = send_request_vote w p args in
      let (n1, counted) = count_reply n votes reply in
      elim counted [ none ↦ (n1, none, w1) | some v ↦ collect_votes ps args n1 v w1 ]

  abbrev finish_election : RaftNode × Option ℕ × World → RaftNode × World
  finish_election (n, votes, w) = (conclude n votes, w)

  -- startElection
  unfoldable pub start_election : RaftNode → World → Option (RaftNode × World)
  unfolding become_candidate request_vote_args collect_votes conclude reset_election_timer
  start_election n w =
      let (n1, w1) = reset_election_timer E (become_candidate n) w in
      back n1.logs >>= λ last.
      some (finish_election (collect_votes n1.peers (request_vote_args n1 last) n1 1 w1))

  -- One round of electionLoop.
  unfoldable pub election_tick : RaftNode → World → Option (RaftNode × World)
  unfolding start_election
  election_tick n w =
      let (t, w1) = now w in
      let started = start_election n w1 in
      if not (is_leader n.state) && leb n.election_timeout_ms (t - n.last_heartbeat_time)
      then started
      else some (n, w1)
