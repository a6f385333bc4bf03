-- ===== src/Raft/Accepting.antt =====
-- handleAppendEntries of raft/RaftNode.cpp, on every branch.
use mathlib.Core.Option.{none-ne-some, some-injective}
use mathlib.Core.Bool.{false≢true}
use yolo_server.Prelude.{
  ◌≤◌, ◌-◌, ℕ, suc, ◌+◌, ◌≡◌, ◌↔◌, refl, sym, ap, ◌∙◌, true, false, some, List, inl, inr, arith,
  Bool-cases, Option-cases, ltb, leb, ==_iff, get_elem?, take, length, ◌⊎◌,
}
use yolo_server.Raft.Types.{LogEntry, follower, RaftNode, AppendEntriesArgs, AppendEntriesReply}
use yolo_server.Raft.Env.{Env}
use yolo_server.Raft.Node.{handle_append_entries, append_entries, log_matches, merge_entries}
use yolo_server.Raft.Log.{Contains, Holds}
use yolo_server.Raft.Merging.{
  merge_entries-Contains, merge_entries-Holds, merge_entries_ends, merge_entries_there,
  take-merge_before, take-merge_entries, log_matches_lt,
}
use yolo_server.Raft.Applying.{put_all, slice}
use yolo_server.Raft.Invariant.{IsValid, IsSound}
use yolo_server.Prelude.{Ensures}
use yolo_server.Raft.Following.{
  commit_target, advance_commit_lem, heard, merged-IndexedFrom, merged_covers,
}

-- The node's log has the entry before the new ones, of the term that the request names.
abbrev pub Fits : List LogEntry → AppendEntriesArgs → Type 0
Fits logs args =
    (l : LogEntry) × (get_elem? logs args.prev_log_index ≡ some l) × (l.term ≡ args.prev_log_term)

log_matches-Fits :
    (logs : List LogEntry) (args : AppendEntriesArgs)
    → (log_matches logs args ≡ true) ↔ Fits logs args
unfolding log_matches
log_matches-Fits logs args = elim (Option-cases (get_elem? logs args.prev_log_index)) [
  | inl gone ↦
      (λ h. absurd (ground arith), λ (l, there, same). absurd (none-ne-some l (sym gone ∙ there)))
  | inr (l, there) ↦ (
    λ h. (l, there, ground arith),
    λ (k, there', same).
        rw (there, log_matches)
          ((==_iff l.term args.prev_log_term).1
            (ap (λ e. e.term) (some-injective l k (sym there ∙ there')) ∙ same)),
  )
]

module _ (E : Env) where
  open E use {World, now, draw_timeout}

  -- The world once the timer is reset.
  abbrev pub after_timer : World → World
  after_timer w = (now (draw_timeout w).1).1

  -- An accepted request: the log is kept up to the previous entry and as far as it is committed, the
  -- request's entries are in it, each itself or as the entry of its term that was at its place, nothing
  -- follows them if one of them was not there, the commit index is the leader's as far as the
  -- log reaches, and exactly the newly committed entries went to the database, in order.
  pub record IsAccepted (n : RaftNode) (args : AppendEntriesArgs) (w : World) (n' : RaftNode)
      (w' : World) : Type 0 where
    pub kept : take (args.prev_log_index + 1) n'.logs ≡ take (args.prev_log_index + 1) n.logs
    pub committed : take (suc n.commit_index) n'.logs ≡ take (suc n.commit_index) n.logs
    pub contains : Contains n'.logs (args.prev_log_index + 1) args.entries
    pub holds : Holds n.logs n'.logs (args.prev_log_index + 1) args.entries
    pub ends :
        Contains n.logs (args.prev_log_index + 1) args.entries
        ⊎ (length n'.logs ≡ args.prev_log_index + 1 + length args.entries)
    pub unchanged : Contains n.logs (args.prev_log_index + 1) args.entries → n'.logs ≡ n.logs
    pub commit : n'.commit_index ≡ commit_target (record n { logs = n'.logs }) args.leader_commit
    pub applied : n'.last_applied ≡ n'.commit_index
    pub puts :
        w'
        ≡ put_all E
            (after_timer w)
            (slice (n.commit_index + 1) (n'.commit_index - n.commit_index) n'.logs)
    pub vote : n'.voted_for ≡ n.voted_for

  pub record IsRejected (n n' : RaftNode) : Type 0 where
    pub logs : n'.logs ≡ n.logs
    pub commit : n'.commit_index ≡ n.commit_index
    pub applied : n'.last_applied ≡ n.last_applied
    pub vote : n'.voted_for ≡ n.voted_for

  pub record Answer (n : RaftNode) (args : AppendEntriesArgs) (w : World)
      (r : AppendEntriesReply × RaftNode × World) : Type 0 where
    pub success : (r.0.success ≡ true) ↔ ((n.current_term ≤ args.term) × Fits n.logs args)
    pub heard_term : n.current_term ≤ args.term → r.1.current_term ≡ args.term
    pub heard_state : n.current_term ≤ args.term → r.1.state ≡ follower
    pub accepted : r.0.success ≡ true → IsAccepted n args w r.1 r.2
    pub rejected : r.0.success ≡ false → IsRejected n r.1

  append_entries-Answer :
      (n : RaftNode) (args : AppendEntriesArgs) (timeout t : ℕ) (w : World)
      → IsValid n
      → IsSound n args
      → leb n.current_term args.term ≡ true
      → Ensures
          (Answer n args w)
          (append_entries E n.current_term (heard n args.term timeout t) args (after_timer w))
  unfolding append_entries
  append_entries-Answer n args timeout t w v s le = elim (Bool-cases (log_matches n.logs args)) [
    | inl fits ↦
        let start = log_matches_lt n.logs args fits in
        let m = record (heard n args.term timeout t) { logs = merge_entries n.logs args } in
        rw
          (
            fits,
            advance_commit_lem E m args.leader_commit (after_timer w)
                (merged-IndexedFrom n args v s start) (merged_covers n args v s start) v.applied,
          )
          (record {
            success = (λ h. (ground arith, (log_matches-Fits n.logs args).0 fits), λ h. refl);
            heard_term = λ h. refl;
            heard_state = λ h. refl;
            accepted = λ h. record {
              kept = take-merge_before n.logs args start;
              committed =
                  take-merge_entries n.logs args start n.commit_index (omega (arith, v.committed))
                    s.respects;
              contains = merge_entries-Contains n.logs args start;
              holds = merge_entries-Holds n.logs args start;
              ends = merge_entries_ends n.logs args start;
              unchanged = merge_entries_there n.logs args start;
              commit = refl;
              applied = refl;
              puts = refl;
              vote = refl;
            };
            rejected = λ h. cc;
          })
    | inr differs ↦ rw differs (record {
      success =
          (λ h. cc, λ h. absurd (false≢true (sym differs ∙ (log_matches-Fits n.logs args).1 h.1)));
      heard_term = λ h. refl;
      heard_state = λ h. refl;
      accepted = λ h. cc;
      rejected = λ h. record { logs = refl; commit = refl; applied = refl; vote = refl };
    })
  ]

  -- For a valid node and a sound request handleAppendEntries returns; it succeeds exactly if the
  -- request is not older than the node and the node's log has the previous entry, of the named
  -- term; then the log is kept up to the previous entry and as far as it was committed; at the
  -- place of each entry of the request it has this entry, key and value included, or the entry of
  -- the same term that was there before; it is unchanged if it had entries of these terms at all
  -- these places, and otherwise ends with the request's last entry; the commit index moves to the
  -- leader's as far as the log reaches, and exactly the newly committed entries are put, in order;
  -- on a refusal log, commit index and vote stay.
  pub handle_append_entries-Answer :
      (n : RaftNode) (args : AppendEntriesArgs) (w : World)
      → IsValid n
      → IsSound n args
      → Ensures (Answer n args w) (handle_append_entries E n args w)
  unfolding handle_append_entries
  handle_append_entries-Answer n args w v s = elim (Bool-cases (ltb args.term n.current_term)) [
    | inl stale ↦ rw stale (record {
      success = (λ h. cc, λ h. absurd (ground (arith, h.0)));
      heard_term = λ h. absurd (ground arith);
      heard_state = λ h. absurd (ground arith);
      accepted = λ h. cc;
      rejected = λ h. record { logs = refl; commit = refl; applied = refl; vote = refl };
    })
    | inr current ↦ rw current (
        append_entries-Answer n args (draw_timeout w).0 (now (draw_timeout w).1).0 w v s
          (ground arith))
  ]
