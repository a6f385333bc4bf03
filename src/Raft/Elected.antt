-- ===== src/Raft/Elected.antt =====
-- startElection of raft/RaftNode.cpp, and the votes it counts.
use yolo_server.Prelude.{
  subst, ℕ, suc, ◌+◌, ◌*◌, ◌%◌, ◌≤◌, ◌<◌, ◌≡◌, refl, none, some, Option, List, [], ◌∷◌, arith, inl,
  inr, ◌∙◌, ap, Bool-cases, Option-cases, length, Text, back, sym, leb, ltb, if◌then◌else◌,
}
use mathlib.Core.Option.{none-ne-some, some-ne-none, some-injective}
use yolo_server.Raft.Types.{
  LogEntry, RaftNode, leader, candidate, follower, RequestVoteArgs, RequestVoteReply,
}
use yolo_server.Raft.Env.{Env}
use yolo_server.Raft.Node.{step_down}
use yolo_server.Raft.Election.{
  count_reply, collect_votes, conclude, majority, start_election, become_leader,
}
use yolo_server.Raft.Progress.{init_progress_lem}
use yolo_server.Raft.Invariant.{retouch}

-- The replies that grant a vote.
abbrev pub granted : List (Option RequestVoteReply) → ℕ
granted [] = 0
granted (none ∷ rs) = granted rs
granted (some r ∷ rs) = let rest = granted rs in if r.vote_granted then suc rest else rest

count_reply_lem :
    (n : RaftNode) (votes : ℕ) (reply : Option RequestVoteReply) {v : ℕ}
    → (count_reply n votes reply).1 ≡ some v
    → (v ≡ votes + granted (reply ∷ [])) × ((count_reply n votes reply).0 ≡ n)
unfolding count_reply
count_reply_lem n votes none h = (ground arith, refl)
count_reply_lem n votes (some r) h = elim (Bool-cases r.vote_granted) [
  | inl yea ↦ (ground arith, ground arith)
  | inr nay ↦ elim (Bool-cases (ltb n.current_term r.term)) [
    | inl newer ↦ absurd (none-ne-some _ (rw (nay, newer) at h))
    | inr not_newer ↦ (ground arith, ground arith)
  ]
]

count_reply-none :
    (n : RaftNode) (votes : ℕ) (reply : Option RequestVoteReply)
    → (count_reply n votes reply).1 ≡ none
    → (count_reply n votes reply).0.state ≡ follower
unfolding count_reply step_down
count_reply-none n votes none h = absurd (some-ne-none _ h)
count_reply-none n votes (some r) h = ground arith

pub granted-cons :
    (r : Option RequestVoteReply) (rs : List (Option RequestVoteReply))
    → granted (r ∷ rs) ≡ granted (r ∷ []) + granted rs
granted-cons none rs = omega arith
granted-cons (some r) rs = ground arith

current_term-conclude :
    (n : RaftNode) (votes : Option ℕ) → (conclude n votes).current_term ≡ n.current_term
unfolding conclude become_leader
current_term-conclude n none = refl
current_term-conclude n (some v) = elim (Bool-cases (leb (majority n) v)) [
  | inl enough ↦
      rw (enough, become_leader, init_progress_lem n.peers (record n { state = leader })) refl
  | inr too_few ↦ rw too_few refl
]

module _ (E : Env) where
  open E use {World, now, draw_timeout, send_request_vote}

  -- The answers of the peers, asked one after the other.
  abbrev pub answers : List Text → RequestVoteArgs → World → List (Option RequestVoteReply)
  answers [] args w = []
  answers (p ∷ ps) args w =
      (send_request_vote w p args).0 ∷ answers ps args (send_request_vote w p args).1

  -- A node that goes through all its peers has counted the votes that they granted, and is still
  -- no leader.
  collect_votes_lem :
      (ps : List Text) (args : RequestVoteArgs) (n : RaftNode) (votes : ℕ) (w : World) {v : ℕ}
      → (collect_votes E ps args n votes w).1 ≡ some v
      → (v ≡ votes + granted (answers ps args w)) × ((collect_votes E ps args n votes w).0 ≡ n)
  unfolding collect_votes
  collect_votes_lem [] args n votes w h = ground arith
  collect_votes_lem (p ∷ ps) args n votes w {v} h =
      let (reply, w1) = send_request_vote w p args in
      let counted = count_reply n votes reply in
      elim (Option-cases counted.1) [
        | inl over ↦ absurd (none-ne-some v (rw (over, collect_votes) at h))
        | inr (votes', going) ↦
            let (first, same) = count_reply_lem n votes reply {v = votes'} going in
            let (rest, kept) =
              collect_votes_lem ps args counted.0 votes' w1 {v = v}
                (rw (going, collect_votes) at h) in
            (
              omega (arith, granted-cons reply (answers ps args w1)),
              rw (going, collect_votes) (kept ∙ same),
            )
      ]

  -- An election that stops early leaves a follower.
  collect_votes-none :
      (ps : List Text) (args : RequestVoteArgs) (n : RaftNode) (votes : ℕ) (w : World)
      → (collect_votes E ps args n votes w).1 ≡ none
      → (collect_votes E ps args n votes w).0.state ≡ follower
  unfolding collect_votes
  collect_votes-none [] args n votes w h = absurd (some-ne-none _ h)
  collect_votes-none (p ∷ ps) args n votes w h =
      let (reply, w1) = send_request_vote w p args in
      let counted = count_reply n votes reply in
      elim (Option-cases counted.1) [
        | inl over ↦ rw (over, collect_votes) (count_reply-none n votes reply over)
        | inr (votes', going) ↦
            rw (going, collect_votes)
              (collect_votes-none ps args counted.0 votes' w1 (rw (going, collect_votes) at h))
      ]

  conclude_leader :
      (m n1 : RaftNode) (votes : Option ℕ)
      → (votes ≡ none → m.state ≡ follower)
      → ((v : ℕ) → votes ≡ some v → m ≡ n1)
      → n1.state ≡ candidate
      → (conclude m votes).state ≡ leader
      → (v : ℕ) × (votes ≡ some v) × (majority n1 ≤ v)
  unfolding conclude
  conclude_leader m n1 none stopped whole e h = absurd (ground (arith, stopped refl))
  conclude_leader m n1 (some v) stopped whole e h = elim (Bool-cases (leb (majority m) v)) [
    | inl enough ↦ (v, refl, subst (λ k. majority k ≤ v) (whole v refl) (ground arith))
    | inr too_few ↦
        let still : m.state ≡ leader = rw too_few at h in
        absurd (ground (arith, ap RaftNode.state (whole v refl)))
  ]

  -- The request of the candidate and the world in which the first peer is asked.
  abbrev pub candidacy : RaftNode → LogEntry → RequestVoteArgs
  candidacy n last = record {
    term = (n.current_term + 1) % 18446744073709551616;
    candidate_id = n.node_id;
    last_log_index = last.index;
    last_log_term = last.term;
  }

  elected :
      (n : RaftNode) (w : World) {last : LogEntry} {n' : RaftNode} {w' : World}
      → back n.logs ≡ some last
      → start_election E n w ≡ some (n', w')
      → n'.state ≡ leader
      → (n'.current_term ≡ (n.current_term + 1) % 18446744073709551616)
        × (length n.peers + 1
            < 2 * (1 + granted (answers n.peers (candidacy n last) (now (draw_timeout w).1).1)))
  unfolding start_election
  elected n w {last} {n'} {w'} at_end ran leads =
      let (timeout, w1) = draw_timeout w in
      let (t, w2) = now w1 in
      let args = candidacy n last in
      let m =
        retouch n ((n.current_term + 1) % 18446744073709551616) n.node_id candidate timeout t in
      let counted = collect_votes E n.peers args m 1 w2 in
      let result : (conclude counted.0 counted.1, counted.2) ≡ (n', w') =
        some-injective _ _ (rw at_end at ran) in
      let (v, all, enough) =
        conclude_leader counted.0 m counted.1 (collect_votes-none n.peers args m 1 w2)
          (λ k e. (collect_votes_lem n.peers args m 1 w2 {v = k} e).1) refl
          (ap (λ (x : RaftNode × World). x.0.state) result ∙ leads) in
      let (tally, same) = collect_votes_lem n.peers args m 1 w2 {v = v} all in
      (
        sym (ap (λ (x : RaftNode × World). x.0.current_term) result)
            ∙ current_term-conclude counted.0 counted.1
            ∙ ap RaftNode.current_term same,
        unfold majority in omega (arith, tally, enough),
      )

  -- A node that an election makes leader has, with its own vote, the votes of more than half of
  -- the cluster.
  pub elected_by_majority :
      (n : RaftNode) (w : World) {last : LogEntry} {n' : RaftNode} {w' : World}
      → back n.logs ≡ some last
      → start_election E n w ≡ some (n', w')
      → n'.state ≡ leader
      → length n.peers + 1
        < 2 * (1 + granted (answers n.peers (candidacy n last) (now (draw_timeout w).1).1))
  elected_by_majority n w at_end ran leads = (elected n w at_end ran leads).1

  -- It leads the term after the one in which it was.
  pub elected_term :
      (n : RaftNode) (w : World) {last : LogEntry} {n' : RaftNode} {w' : World}
      → back n.logs ≡ some last
      → start_election E n w ≡ some (n', w')
      → n'.state ≡ leader
      → n'.current_term ≡ (n.current_term + 1) % 18446744073709551616
  elected_term n w at_end ran leads = (elected n w at_end ran leads).0
