-- ===== src/Raft/Stalling.antt =====
-- Two paths through raft/RaftNode.cpp: the entries heartbeatLoop collects, and the vote a node holds
-- when handleAppendEntries raises its term.
use yolo_server.Prelude.{
  ℕ, ◌-◌, ◌≤◌, ◌<◌, ◌≡◌, ◌≢◌, false, [], arith, inl, inr, ◌∙◌, sym, ap, Bool-cases, length, Text,
  text_eq_iff,
}
use yolo_server.Prelude.Assoc.{text_key}
use yolo_server.Raft.Types.{
  RaftNode, AppendEntriesArgs, AppendEntriesReply, RequestVoteArgs, LogEntry,
}
use yolo_server.Raft.Env.{Env}
use yolo_server.Raft.Node.{handle_append_entries, handle_request_vote}
use yolo_server.Raft.Heartbeat.{heartbeat_args, record_success, index_of}
use yolo_server.Raft.Log.{back-some}
use yolo_server.Raft.Invariant.{IsValid, IsSound, Kept}
use yolo_server.Prelude.{Ensures, Ensures-map, Ensures-both}
use yolo_server.Raft.Voting.{vote_granted_iff, deserves_vote}
use yolo_server.Raft.Following.{handle_append_entries-Kept}
use yolo_server.Raft.Accepting.{Answer, handle_append_entries-Answer}
use yolo_server.Raft.Leading.{record_success_lem}
use yolo_server.Raft.Progress.{index_of-insert}

heartbeat_args-IsSound :
    (n f : RaftNode) (next : ℕ) (prev : LogEntry)
    → IsValid f
    → IsSound f (heartbeat_args n next prev)
unfolding heartbeat_args
heartbeat_args-IsSound n f next prev v = record {
  positions = tt;
  respects = tt;
  room = omega (arith, v.fits);
}

-- A heartbeat leaves the log of a valid follower as it is, and yet the success recorded for it
-- claims the leader's whole log: from a follower with a shorter log the recorded match index lies
-- past the end of the follower's log.
pub stalled_replication :
    (E : Env) (n f : RaftNode) (p : Text) (next : ℕ) (prev : LogEntry) (w : E.World)
    → IsValid f
    → 1 ≤ next
    → next ≤ length n.logs
    → length n.logs < 18446744073709551616
    → length f.logs < length n.logs
    → Ensures
        (λ r.
          (r.1.logs ≡ f.logs)
          × (length r.1.logs ≤ index_of p (record_success n p next).match_index))
        (handle_append_entries E f (heartbeat_args n next prev) w)
unfolding heartbeat_args
stalled_replication E n f p next prev w v low high fits shorter =
    Ensures-map (Answer E f args w) _
      (λ r a. let same = logs_same r a in (same, rw recorded (omega (arith, ap length same))))
      (handle_append_entries E f args w)
      (handle_append_entries-Answer E f args w v (heartbeat_args-IsSound n f next prev v))
  where
    args : AppendEntriesArgs
    args = heartbeat_args n next prev

    recorded : index_of p (record_success n p next).match_index ≡ length n.logs - 1
    recorded =
        rw (record_success_lem n p next low high fits)
          (index_of-insert n.match_index p (length n.logs - 1))

    logs_same :
        (r : AppendEntriesReply × RaftNode × E.World) → Answer E f args w r → r.1.logs ≡ f.logs
    logs_same r a = elim (Bool-cases r.0.success) [
      | inl done ↦ (a.accepted done).unchanged tt
      | inr refused ↦ (a.rejected refused).logs
    ]

no_vote :
    (m : RaftNode) (d : RequestVoteArgs) (last : LogEntry)
    → m.voted_for ≢ []
    → m.voted_for ≢ d.candidate_id
    → d.term ≡ m.current_term
    → deserves_vote m d last ≡ false
no_vote m d last voted other same =
    ground (arith, text_eq_iff m.voted_for [], text_eq_iff m.voted_for d.candidate_id)

-- A valid node that has voted and then hears a leader of a newer term refuses every other
-- candidate of that newer term, in which it has given no vote.
pub stale_vote_refuses :
    (E : Env) (f : RaftNode) (args : AppendEntriesArgs) (d : RequestVoteArgs) (w u : E.World)
    → IsValid f
    → IsSound f args
    → f.current_term < args.term
    → f.voted_for ≢ []
    → d.candidate_id ≢ f.voted_for
    → d.term ≡ args.term
    → Ensures
        (λ r. Ensures (λ s. s.0.vote_granted ≡ false) (handle_request_vote E r.1 d u))
        (handle_append_entries E f args w)
stale_vote_refuses E f args d w u v s newer voted other same =
    Ensures-map (λ r. Answer E f args w r × Kept f r.1) _
      (λ r a. denied r.1 (vote_same r a.0) (a.0.heard_term (omega arith)) a.1.valid)
      (handle_append_entries E f args w)
      (Ensures-both (Answer E f args w) (λ r. Kept f r.1) (handle_append_entries E f args w)
        (handle_append_entries-Answer E f args w v s) (handle_append_entries-Kept E f args w v s))
  where
    vote_same :
        (r : AppendEntriesReply × RaftNode × E.World)
        → Answer E f args w r
        → r.1.voted_for ≡ f.voted_for
    vote_same r a = elim (Bool-cases r.0.success) [
      | inl done ↦ (a.accepted done).vote
      | inr refused ↦ (a.rejected refused).vote
    ]

    denied :
        (m : RaftNode)
        → m.voted_for ≡ f.voted_for
        → m.current_term ≡ args.term
        → IsValid m
        → Ensures (λ r. r.0.vote_granted ≡ false) (handle_request_vote E m d u)
    denied m vote term valid =
        let (last, at_end) = back-some m.logs (omega (arith, valid.committed)) in
        Ensures-map _ _
          (λ r g.
            g.0
            ∙ no_vote m d last (λ e. voted (sym vote ∙ e)) (λ e. other (sym e ∙ vote))
                (same ∙ sym term))
          (handle_request_vote E m d u) (vote_granted_iff E m d u at_end)
