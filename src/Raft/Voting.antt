-- ===== src/Raft/Voting.antt =====
-- handleRequestVote of raft/RaftNode.cpp.
use yolo_server.Prelude.{
  text_eq_refl, ◌==◌, text_eq, ◌||◌, ◌&&◌, leb, Bool, text_eq_iff, ◌⊎◌, refl, ◌≡◌, true, ℕ, ◌≡◌,
  false, some, [], arith, ltb, if◌then◌else◌, Bool-cases, inl, inr, back,
}
use yolo_server.Raft.Types.{follower, LogEntry, RaftNode, RequestVoteArgs}
use yolo_server.Raft.Env.{Env}
use yolo_server.Raft.Node.{
  handle_request_vote, answer_vote, may_vote, adopt_term, step_down, cast_vote,
}
use yolo_server.Raft.Log.{back-some}
use yolo_server.Raft.Invariant.{IsValid, Kept, Kept-refl, Kept-trans, retouch-Kept}
use yolo_server.Prelude.{Ensures}

-- A vote goes to a candidate only if none is given in this term, or it was given to the same.
granted_to :
    (n : RaftNode) (args : RequestVoteArgs) (last : LogEntry)
    → may_vote n args last ≡ true
    → (n.voted_for ≡ []) ⊎ (args.candidate_id ≡ n.voted_for)
unfolding may_vote
granted_to n args last h =
    ground (arith, text_eq_iff n.voted_for [], text_eq_iff n.voted_for args.candidate_id)

-- The conditions of a vote, written once: the request is not older than the node; its term is
-- newer, or the vote of this term is free or the candidate's; its log is not behind.
abbrev pub deserves_vote : RaftNode → RequestVoteArgs → LogEntry → Bool
deserves_vote n args last =
    leb n.current_term args.term
    && ((ltb n.current_term args.term
          || (text_eq n.voted_for [] || text_eq n.voted_for args.candidate_id))
        && (ltb last.term args.last_log_term
            || (last.term == args.last_log_term && leb last.index args.last_log_index)))

module _ (E : Env) where
  open E use {World, now, draw_timeout}

  adopt_term-logs : (term : ℕ) (n : RaftNode) → (adopt_term term n).logs ≡ n.logs
  unfolding adopt_term
  adopt_term-logs term n = ground arith

  -- The vote in closed form, for a log with a last entry.
  pub handle_request_vote_lem :
      (n : RaftNode) (args : RequestVoteArgs) (w : World) {last : LogEntry}
      → back n.logs ≡ some last
      → handle_request_vote E n args w ≡ (
          if ltb args.term n.current_term
          then some (record { term = n.current_term; vote_granted = false }, n, w)
          else some (answer_vote E (adopt_term args.term n) args w last))
  unfolding handle_request_vote
  handle_request_vote_lem n args w h = rw (adopt_term-logs args.term n, h)

  adopt_term-Kept : (term : ℕ) (n : RaftNode) → IsValid n → Kept n (adopt_term term n)
  unfolding adopt_term step_down
  adopt_term-Kept term n v = elim (Bool-cases (ltb n.current_term term)) [
    | inl newer ↦ rw newer (
        retouch-Kept n term [] follower n.election_timeout_ms n.last_heartbeat_time v
          (inl (ground arith)) (λ h. cc))
    | inr not_newer ↦ rw not_newer (Kept-refl n v)
  ]

  answer_vote-Kept :
      (n : RaftNode) (args : RequestVoteArgs) (w : World) (last : LogEntry)
      → IsValid n
      → Kept n (answer_vote E n args w last).1
  unfolding answer_vote cast_vote
  answer_vote-Kept n args w last v = elim (Bool-cases (may_vote n args last)) [
    | inl granted ↦ rw granted (
        retouch-Kept n n.current_term args.candidate_id n.state (draw_timeout w).0
          (now (draw_timeout w).1).0 v (inr (refl, granted_to n args last granted)) (λ h. h))
    | inr refused ↦ rw refused (Kept-refl n v)
  ]

  -- handleRequestVote returns and keeps the invariant, the term, the commit index and the log.
  pub handle_request_vote-Kept :
      (n : RaftNode) (args : RequestVoteArgs) (w : World)
      → IsValid n
      → Ensures (λ r. Kept n r.1) (handle_request_vote E n args w)
  handle_request_vote-Kept n args w v =
      let (last, at_end) = back-some n.logs (omega (arith, v.committed)) in
      rw (handle_request_vote_lem n args w at_end)
        (elim (Bool-cases (ltb args.term n.current_term)) [
          | inl stale ↦ rw stale (Kept-refl n v)
          | inr current ↦
              let adopted = adopt_term-Kept args.term n v in
              rw current (
                Kept-trans adopted
                  (answer_vote-Kept (adopt_term args.term n) args w last adopted.valid))
        ])

  -- handleRequestVote grants its vote exactly if the request is not older than the node, its term
  -- is newer or the vote of the term is free or the candidate's, and its log is not behind; a
  -- granted vote is recorded for the candidate in the request's term; the log stays and the reply
  -- carries the new term.
  pub vote_granted_iff :
      (n : RaftNode) (args : RequestVoteArgs) (w : World) {last : LogEntry}
      → back n.logs ≡ some last
      → Ensures
          (λ r.
            (r.0.vote_granted ≡ deserves_vote n args last)
            × (r.0.vote_granted ≡ true
                → (r.1.voted_for ≡ args.candidate_id) × (r.1.current_term ≡ args.term))
            × (r.1.logs ≡ n.logs)
            × (r.0.term ≡ r.1.current_term))
          (handle_request_vote E n args w)
  unfolding answer_vote adopt_term may_vote cast_vote
  vote_granted_iff n args w {last} h =
      rw (handle_request_vote_lem n args w h) (elim (Bool-cases (ltb args.term n.current_term)) [
        | inl stale ↦ rw stale (ground arith)
        | inr current ↦ rw current (ground (arith, text_eq_refl []))
      ])
