-- ===== src/Raft/Keeping.antt =====
-- What the calls outside the class keep, handleRequestVote and handleAppendEntries of
-- raft/RaftNode.cpp keep.
use yolo_server.Prelude.{
  ℕ, zero, suc, ◌+◌, ◌-◌, Bool, true, false, Option, none, some, ltb, if_both, back, get_elem?,
  Text, ◌>>=◌, min,
}
use yolo_server.Raft.Types.{
  LogEntry, RaftNode, RequestVoteArgs, RequestVoteReply, AppendEntriesArgs,
}
use yolo_server.Raft.Env.{Env}
use yolo_server.Raft.Node.{
  handle_request_vote, answer_vote, cast_vote, may_vote, adopt_term, reset_election_timer,
  apply_loop, apply_committed_logs, advance_commit, append_entries, accepted, handle_append_entries,
  log_matches,
}

module _ (E : Env) (P : E.World → Type 0) (nows : (w : E.World) → P w → P (E.now w).1)
    (draws : (w : E.World) → P w → P (E.draw_timeout w).1)
    (puts : (w : E.World) (k v : Text) → P w → P (E.put w k v).1) where
  -- The world of a result, if there is one.
  abbrev pub KeptIn : {R : Type 0} → Option (R × RaftNode × E.World) → Type 0
  KeptIn none = Unit
  KeptIn (some (r, n, w)) = P w

  abbrev KeptAt : Option (RaftNode × E.World) → Type 0
  KeptAt none = Unit
  KeptAt (some (n, w)) = P w

  cast_vote-keeps :
      (n : RaftNode) (args : RequestVoteArgs) (w : E.World) → P w → P (cast_vote E n args w).2
  unfolding cast_vote reset_election_timer
  cast_vote-keeps n args w p = nows (E.draw_timeout w).1 (draws w p)

  answer_from :
      (n : RaftNode) (args : RequestVoteArgs) (w : E.World) (last : Option LogEntry)
      → P w
      → KeptIn (last >>= λ entry. some (answer_vote E n args w entry))
  unfolding answer_vote
  answer_from n args w none p = tt
  answer_from n args w (some entry) p =
      if_both (λ (r : RequestVoteReply × RaftNode × E.World). P r.2) (may_vote n args entry) _ _
        (cast_vote-keeps n args w p) p

  pub handle_request_vote-keeps :
      (n : RaftNode) (args : RequestVoteArgs) (w : E.World)
      → P w
      → KeptIn (handle_request_vote E n args w)
  unfolding handle_request_vote
  handle_request_vote-keeps n args w p =
      let n1 = adopt_term args.term n in
      if_both KeptIn (ltb args.term n.current_term) _ _ p (answer_from n1 args w (back n1.logs) p)

  apply_loop-keeps : (fuel : ℕ) (n : RaftNode) (w : E.World) → P w → KeptAt (apply_loop E fuel n w)
  unfolding apply_loop
  apply_loop-keeps zero n w p = if_both KeptAt (ltb n.last_applied n.commit_index) _ _ tt p
  apply_loop-keeps (suc fuel) n w p =
      go (ltb n.last_applied n.commit_index) (get_elem? n.logs (n.last_applied + 1)) (λ entry.
        apply_loop-keeps fuel (record n { last_applied = n.last_applied + 1 })
          (E.put w entry.key entry.value).1 (puts w entry.key entry.value p))
    where
      go :
          (more : Bool) (entry : Option LogEntry)
          → ((e : LogEntry)
              → KeptAt (
                  apply_loop E fuel
                    (record n { last_applied = n.last_applied + 1 })
                    (E.put w e.key e.value).1))
          → KeptAt (elim more [
            | false ↦ some (n, w)
            | true ↦ elim entry [
              | none ↦ none
              | some e ↦
                  apply_loop E fuel
                    (record n { last_applied = n.last_applied + 1 })
                    (E.put w e.key e.value).1
            ]
          ])
      go false entry rest = p
      go true none rest = tt
      go true (some e) rest = rest e

  advance_from :
      (n : RaftNode) (leader_commit : ℕ) (w : E.World) (last : Option LogEntry)
      → P w
      → KeptAt (
          last >>= λ entry.
          apply_committed_logs E (record n { commit_index = min leader_commit entry.index }) w)
  unfolding apply_committed_logs
  advance_from n leader_commit w none p = tt
  advance_from n leader_commit w (some entry) p =
      apply_loop-keeps (min leader_commit entry.index - n.last_applied)
        (record n { commit_index = min leader_commit entry.index }) w p

  advance_commit-keeps :
      (n : RaftNode) (leader_commit : ℕ) (w : E.World)
      → P w
      → KeptAt (advance_commit E n leader_commit w)
  unfolding advance_commit
  advance_commit-keeps n leader_commit w p =
      if_both KeptAt (ltb n.commit_index leader_commit) _ _
        (advance_from n leader_commit w (back n.logs) p) p

  accepted-keeps :
      (o : Option (RaftNode × E.World)) → KeptAt o → KeptIn (o >>= λ r. some (accepted E r))
  accepted-keeps none p = tt
  accepted-keeps (some (n, w)) p = p

  pub handle_append_entries-keeps :
      (n : RaftNode) (args : AppendEntriesArgs) (w : E.World)
      → P w
      → KeptIn (handle_append_entries E n args w)
  unfolding handle_append_entries append_entries reset_election_timer
  handle_append_entries-keeps n args w p =
      let w1 = (E.now (E.draw_timeout w).1).1 in
      let p1 = nows (E.draw_timeout w).1 (draws w p) in
      if_both KeptIn (ltb args.term n.current_term) _ _ p (
        if_both KeptIn (log_matches n.logs args) _ _
          (accepted-keeps _ (advance_commit-keeps _ args.leader_commit w1 p1)) p1)
