-- ===== src/Raft/Applying.antt =====
-- applyCommittedLogs of raft/RaftNode.cpp.
use yolo_server.Prelude.{
  ℕ, zero, suc, ◌+◌, ◌-◌, ◌≤◌, ◌<◌, ◌≡◌, some, List, [], ◌∷◌, arith, length, get_elem?_lt, take,
  drop, drop-get_elem?, lt→ltb, sym, ap, ◌∙◌,
}
use yolo_server.Raft.Types.{LogEntry, RaftNode}
use yolo_server.Raft.Env.{Env}
use yolo_server.Raft.Node.{apply_loop, apply_committed_logs}

-- The entries at positions `from`, …, `from + count - 1`.
abbrev pub slice : ℕ → ℕ → List LogEntry → List LogEntry
slice from count logs = take count (drop from logs)

module _ (E : Env) where
  open E use {World, put}

  -- The puts of a list of entries, first to last.
  abbrev pub put_all : World → List LogEntry → World
  put_all w [] = w
  put_all w (e ∷ es) = put_all (put w e.key e.value).1 es

  apply_loop_lem :
      (fuel : ℕ) (n : RaftNode) (w : World)
      → n.commit_index ≡ n.last_applied + fuel
      → n.commit_index < length n.logs
      → apply_loop E fuel n w
        ≡ some (
          record n { last_applied = n.commit_index },
          put_all w (slice (n.last_applied + 1) fuel n.logs),
        )
  unfolding apply_loop
  apply_loop_lem zero n w e h = ground arith
  apply_loop_lem (suc fuel) n w e h =
      let (entry, there) = get_elem?_lt n.logs (n.last_applied + 1) (omega arith) in
      let n1 = record n { last_applied = n.last_applied + 1 } in
      let w1 = (put w entry.key entry.value).1 in
      rw (lt→ltb n.last_applied n.commit_index (omega arith), there, apply_loop)
        (apply_loop_lem fuel n1 w1 (omega arith) h
          ∙ sym (
              ap
                (λ es.
                  some (record n { last_applied = n.commit_index }, put_all w (take (suc fuel) es)))
                (drop-get_elem? (n.last_applied + 1) n.logs there
                  ∙ ap (λ k. entry ∷ drop k n.logs) {x = suc (n.last_applied + 1)} (omega arith))))

  -- With lastApplied at most the commit index and the commit index inside the log,
  -- applyCommittedLogs ends without a fault, and puts exactly the entries above lastApplied up to
  -- the commit index, in order.
  pub apply_committed_logs_lem :
      (n : RaftNode) (w : World)
      → n.last_applied ≤ n.commit_index
      → n.commit_index < length n.logs
      → apply_committed_logs E n w
        ≡ some (
          record n { last_applied = n.commit_index },
          put_all w (slice (n.last_applied + 1) (n.commit_index - n.last_applied) n.logs),
        )
  unfolding apply_committed_logs
  apply_committed_logs_lem n w le h =
      apply_loop_lem (n.commit_index - n.last_applied) n w (omega arith) h

  -- The same from a node whose commit index is about to rise.
  pub commit_to :
      (n : RaftNode) (c : ℕ) (w : World)
      → n.last_applied ≡ n.commit_index
      → n.commit_index ≤ c
      → c < length n.logs
      → apply_committed_logs E (record n { commit_index = c }) w
        ≡ some (
          record n { commit_index = c; last_applied = c },
          put_all w (slice (n.commit_index + 1) (c - n.commit_index) n.logs),
        )
  commit_to n c w e le h =
      apply_committed_logs_lem (record n { commit_index = c }) w (omega arith) h
      ∙ ap
          (λ k. some (
            record n { commit_index = c; last_applied = c },
            put_all w (slice (k + 1) (c - k) n.logs),
          ))
          e
