-- ===== src/Raft/Campaign.antt =====
-- startElection and electionLoop of raft/RaftNode.cpp, against the invariant of the node.
use yolo_server.Prelude.{
  ℕ, ◌+◌, ◌-◌, ◌%◌, ◌<◌, not, ◌&&◌, none, some, Option, List, [], ◌∷◌, arith, Text, ltb, leb,
  Bool-cases, Option-cases, inl, inr,
}
use yolo_server.Raft.Types.{
  follower, candidate, RaftNode, RequestVoteArgs, RequestVoteReply, is_leader,
}
use yolo_server.Raft.Env.{Env}
use yolo_server.Raft.Node.{step_down}
use yolo_server.Raft.Election.{
  count_reply, collect_votes, conclude, start_election, election_tick, majority, request_vote_args,
}
use yolo_server.Raft.Log.{back-some}
use yolo_server.Raft.Invariant.{IsValid, Kept, Kept-refl, Kept-trans, retouch, retouch-Kept}
use yolo_server.Prelude.{Ensures, Ensures-map}
use yolo_server.Raft.Progress.{become_leader-Kept}

count_reply-Kept :
    (n : RaftNode) (votes : ℕ) (reply : Option RequestVoteReply)
    → IsValid n
    → Kept n (count_reply n votes reply).0
unfolding count_reply
count_reply-Kept n votes none v = Kept-refl n v
count_reply-Kept n votes (some reply) v = elim (Bool-cases reply.vote_granted) [
  | inl granted ↦ rw granted (Kept-refl n v)
  | inr denied ↦ elim (Bool-cases (ltb n.current_term reply.term)) [
    | inl newer ↦
        rw (denied, newer, step_down)
          (retouch-Kept n reply.term [] follower n.election_timeout_ms n.last_heartbeat_time v
            (inl (ground arith)) (λ h. cc))
    | inr not_newer ↦ rw (denied, not_newer) (Kept-refl n v)
  ]
]

conclude-Kept : (n : RaftNode) (votes : Option ℕ) → IsValid n → Kept n (conclude n votes)
unfolding conclude
conclude-Kept n none v = Kept-refl n v
conclude-Kept n (some votes) v = elim (Bool-cases (leb (majority n) votes)) [
  | inl enough ↦ rw enough (become_leader-Kept n v)
  | inr too_few ↦ rw too_few (Kept-refl n v)
]

module _ (E : Env) where
  open E use {World, now, draw_timeout, send_request_vote}

  collect_votes-Kept :
      (ps : List Text) (args : RequestVoteArgs) (n : RaftNode) (votes : ℕ) (w : World)
      → IsValid n
      → Kept n (collect_votes E ps args n votes w).0
  unfolding collect_votes
  collect_votes-Kept [] args n votes w v = Kept-refl n v
  collect_votes-Kept (p ∷ ps) args n votes w v =
      let (reply, w1) = send_request_vote w p args in
      let counted = count_reply-Kept n votes reply v in
      elim (Option-cases (count_reply n votes reply).1) [
        | inl over ↦ rw (over, collect_votes) counted
        | inr (votes', going) ↦
            rw (going, collect_votes)
              (Kept-trans counted
                (collect_votes-Kept ps args (count_reply n votes reply).0 votes' w1 counted.valid))
      ]

  -- The candidate of the next term, in which the peers are asked.
  abbrev pub candidate_of : RaftNode → World → RaftNode
  candidate_of n w =
      let (timeout, w1) = draw_timeout w in
      retouch n ((n.current_term + 1) % 18446744073709551616) n.node_id candidate timeout (now w1).0

  candidate_of-Kept :
      (n : RaftNode) (w : World)
      → IsValid n
      → n.current_term + 1 < 18446744073709551616
      → Kept n (candidate_of n w)
  candidate_of-Kept n w v room =
      let (timeout, w1) = draw_timeout w in
      retouch-Kept n ((n.current_term + 1) % 18446744073709551616) n.node_id candidate timeout
        (now w1).0 v (inl (omega arith)) (λ h. cc)

  -- From then on the vote that the candidate has given itself stays.
  pub start_election-candidate :
      (n : RaftNode) (w : World)
      → IsValid n
      → n.current_term + 1 < 18446744073709551616
      → Ensures (λ r. Kept (candidate_of n w) r.0) (start_election E n w)
  unfolding start_election
  start_election-candidate n w v room =
      let (last, at_end) = back-some n.logs (omega (arith, v.committed)) in
      let m = candidate_of n w in
      let began = candidate_of-Kept n w v room in
      let asked =
        collect_votes-Kept m.peers (request_vote_args m last) m 1 (now (draw_timeout w).1).1
          began.valid in
      rw at_end (Kept-trans asked (conclude-Kept _ _ asked.valid))

  -- An election returns, whatever the peers answer, and keeps what Kept says.
  pub start_election-Kept :
      (n : RaftNode) (w : World)
      → IsValid n
      → n.current_term + 1 < 18446744073709551616
      → Ensures (λ r. Kept n r.0) (start_election E n w)
  start_election-Kept n w v room =
      Ensures-map (λ r. Kept (candidate_of n w) r.0) (λ r. Kept n r.0)
        (λ r k. Kept-trans (candidate_of-Kept n w v room) k) (start_election E n w)
        (start_election-candidate n w v room)

  pub election_tick-Kept :
      (n : RaftNode) (w : World)
      → IsValid n
      → n.current_term + 1 < 18446744073709551616
      → Ensures (λ r. Kept n r.0) (election_tick E n w)
  unfolding election_tick
  election_tick-Kept n w v room =
      elim (Bool-cases (
        not (is_leader n.state) && leb n.election_timeout_ms ((now w).0 - n.last_heartbeat_time))) [
          | inl due ↦ rw due (start_election-Kept n (now w).1 v room)
          | inr early ↦ rw early (Kept-refl n v)
        ]
