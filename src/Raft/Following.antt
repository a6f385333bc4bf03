-- ===== src/Raft/Following.antt =====
-- The two RPC handlers of raft/RaftNode.cpp, against the invariant of the node.
use yolo_server.Prelude.{
  ℕ, suc, ◌+◌, ◌-◌, ◌≤◌, ◌<◌, ◌≡◌, min, refl, some, arith, length, take, ltb, if◌then◌else◌,
  Bool-cases, inl, inr, ltb→lt, ap, length_of_take,
}
use yolo_server.Raft.Types.{follower, RaftNode, AppendEntriesArgs}
use yolo_server.Raft.Env.{Env}
use yolo_server.Raft.Node.{
  advance_commit, append_entries, handle_append_entries, log_matches, merge_entries,
}
use yolo_server.Raft.Log.{IndexedFrom, back-IndexedFrom, back-some}
use yolo_server.Raft.Merging.{
  take-merge_entries, log_matches_lt, merge_entries-IndexedFrom, length-merge_entries_le,
}
use yolo_server.Raft.Applying.{put_all, slice, commit_to}
use yolo_server.Raft.Invariant.{IsValid, VoteStep-same, IsSound, Kept, Kept-refl}
use yolo_server.Prelude.{Ensures}

-- The commit index that a follower takes over.
abbrev pub commit_target : RaftNode → ℕ → ℕ
commit_target n leader_commit =
    if ltb n.commit_index leader_commit
    then min leader_commit (length n.logs - 1)
    else n.commit_index

module _ (E : Env) where
  open E use {World}

  pub advance_commit_lem :
      (n : RaftNode) (leader_commit : ℕ) (w : World)
      → IndexedFrom 0 n.logs
      → n.commit_index < length n.logs
      → n.last_applied ≡ n.commit_index
      → let c = commit_target n leader_commit in
        advance_commit E n leader_commit w
        ≡ some (
          record n { commit_index = c; last_applied = c },
          put_all E w (slice (n.commit_index + 1) (c - n.commit_index) n.logs),
        )
  unfolding advance_commit
  advance_commit_lem n leader_commit w ix h e =
      elim (Bool-cases (ltb n.commit_index leader_commit)) [
        | inl more ↦
            let (last, at_end) = back-some n.logs (omega arith) in
            let position : last.index ≡ length n.logs - 1 =
              omega (arith, back-IndexedFrom n.logs {last = last} ix at_end) in
            rw (more, at_end, position)
              (commit_to E n (min leader_commit (length n.logs - 1)) w e
                (omega (arith, ltb→lt n.commit_index leader_commit more)) (omega arith))
        | inr same ↦
            let nothing : n.commit_index - n.commit_index ≡ 0 = omega arith in
            rw (same, nothing) (ap (λ k. some (record n { last_applied = k }, w)) e)
      ]

-- The merged log under a sound request that starts inside the log.
module _ (n : RaftNode) (args : AppendEntriesArgs) (v : IsValid n) (s : IsSound n args)
    (start : args.prev_log_index < length n.logs) where
  pub merged-IndexedFrom : IndexedFrom 0 (merge_entries n.logs args)
  merged-IndexedFrom = merge_entries-IndexedFrom n.logs args start v.indexed s.positions

  merged_prefix :
      take (suc n.commit_index) (merge_entries n.logs args) ≡ take (suc n.commit_index) n.logs
  merged_prefix = take-merge_entries n.logs args start n.commit_index v.committed s.respects

  pub merged_covers : n.commit_index < length (merge_entries n.logs args)
  merged_covers =
      length_of_take (suc n.commit_index) (merge_entries n.logs args) n.logs merged_prefix
        v.committed

  merged_fits : length (merge_entries n.logs args) < 18446744073709551616
  merged_fits = omega (arith, s.room, length-merge_entries_le n.logs args start)

-- The node once a request of a current term is heard.
abbrev pub heard : RaftNode → ℕ → ℕ → ℕ → RaftNode
heard n term timeout t = record n {
  state = follower;
  current_term = term;
  election_timeout_ms = timeout;
  last_heartbeat_time = t;
}

module _ (E : Env) where
  open E use {World, now, draw_timeout}

  append_entries-Kept :
      (n : RaftNode) (args : AppendEntriesArgs) (timeout t : ℕ) (w : World)
      → IsValid n
      → IsSound n args
      → n.current_term ≤ args.term
      → Ensures
          (λ r. Kept n r.1)
          (append_entries E n.current_term (heard n args.term timeout t) args w)
  unfolding append_entries
  append_entries-Kept n args timeout t w v s le = elim (Bool-cases (log_matches n.logs args)) [
    | inl fits ↦
        let start = log_matches_lt n.logs args fits in
        let ix = merged-IndexedFrom n args v s start in
        let long = merged_covers n args v s start in
        let m = record (heard n args.term timeout t) { logs = merge_entries n.logs args } in
        rw (fits, advance_commit_lem E m args.leader_commit w ix long v.applied)
          (record {
            valid = record {
              indexed = ix;
              committed = ground arith;
              applied = refl;
              fits = merged_fits n args v s start;
              tracked = v.tracked;
              ready = λ h. cc;
            };
            term_grows = le;
            vote_stays = VoteStep-same n.current_term args.term n.voted_for le;
            commit_grows = ground arith;
            prefix = merged_prefix n args v s start;
            same_id = refl;
            peers_stay = refl;
          })
    | inr differs ↦ rw differs (record {
      valid = record {
        indexed = v.indexed;
        committed = v.committed;
        applied = v.applied;
        fits = v.fits;
        tracked = v.tracked;
        ready = λ h. cc;
      };
      term_grows = le;
      vote_stays = VoteStep-same n.current_term args.term n.voted_for le;
      commit_grows = omega arith;
      prefix = refl;
      same_id = refl;
      peers_stay = refl;
    })
  ]

  -- A sound AppendEntries request returns, keeps the invariant, and takes back neither the term
  -- nor the commit index nor a committed entry.
  pub handle_append_entries-Kept :
      (n : RaftNode) (args : AppendEntriesArgs) (w : World)
      → IsValid n
      → IsSound n args
      → Ensures (λ r. Kept n r.1) (handle_append_entries E n args w)
  unfolding handle_append_entries
  handle_append_entries-Kept n args w v s = elim (Bool-cases (ltb args.term n.current_term)) [
    | inl stale ↦ rw stale (Kept-refl n v)
    | inr current ↦ rw current (
        append_entries-Kept n args (draw_timeout w).0 (now (draw_timeout w).1).0 _ v s
          (ground arith))
  ]
