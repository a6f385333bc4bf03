-- ===== src/Raft/Examples.antt =====
-- The theorems on raft/RaftNode.cpp at concrete nodes.
use mathlib.Core.Bool.{false≢true}
use yolo_server.Prelude.{
  ℕ, ◌+◌, ◌*◌, ◌≤◌, ◌<◌, ◌≡◌, ◌≢◌, refl, true, false, none, some, [], ◌∷◌, ◌++◌, arith, length,
  text_eq, text_eq_iff, codes,
}
use yolo_server.Raft.Types.{RaftNode}
use yolo_server.Raft.Tests.{
  scripted, quiet, voter, boss, voter-IsValid, boss-IsValid, append_one, append_one-IsSound, ballot,
  n2, n3, yea, ack, entry, Script,
}
use yolo_server.Raft.Node
use yolo_server.Raft.Node.{
  handle_append_entries, handle_request_vote, submit_log, apply_committed_logs, merge_entries,
  new_entry,
}
use yolo_server.Raft.Election.{start_election}
use yolo_server.Raft.Heartbeat.{
  heartbeat_round, index_of, match_indices, new_commit_index, heartbeat_args, record_success,
}
use yolo_server.Raft.Invariant.{Kept}
use yolo_server.Prelude.{Ensures}
use yolo_server.Raft.Applying.{apply_committed_logs_lem, put_all}
use yolo_server.Raft.Voting.{vote_granted_iff, deserves_vote}
use yolo_server.Raft.Sorting.{new_commit_index-IsQuorumIndex, IsQuorumIndex, half_commits, count_ge}
use yolo_server.Raft.Replicating.{heartbeat_round-Kept}
use yolo_server.Raft.Accepting.{Answer, handle_append_entries-Answer}
use yolo_server.Raft.Elected.{elected_by_majority, granted}
use yolo_server.Raft.Steps.{here, next, submits, Reach-Kept, one_vote_per_term}
use yolo_server.Raft.Stalling.{stalled_replication, stale_vote_refuses}

Reach-Kept_example :
    Kept boss (record boss { logs = boss.logs ++ new_entry 1 3 (codes "a") (codes "b") ∷ [] })
unfolding submit_log
Reach-Kept_example =
    Reach-Kept scripted boss-IsValid
      (next here (submits (codes "a") (codes "b") true (omega arith) refl))

handle_append_entries-Answer_example :
    Ensures
      (Answer scripted voter append_one quiet)
      (handle_append_entries scripted voter append_one quiet)
handle_append_entries-Answer_example =
    handle_append_entries-Answer scripted voter append_one quiet voter-IsValid append_one-IsSound

heartbeat_round-Kept_example :
    Ensures
      (λ r. Kept boss r.0)
      (heartbeat_round scripted boss (record quiet { append_replies = ack ∷ none ∷ [] }))
heartbeat_round-Kept_example =
    heartbeat_round-Kept scripted boss (record quiet { append_replies = ack ∷ none ∷ [] })
      boss-IsValid

n3≢n2 : n3 ≢ n2
unfolding text_eq
n3≢n2 e = false≢true ((text_eq_iff n3 n2).1 e)

-- The voter once it has voted for node3 in term 2.
abbrev voted : RaftNode
voted = record voter {
  current_term = 2;
  voted_for = n3;
  election_timeout_ms = 200;
  last_heartbeat_time = 1000;
}

one_vote_per_term_example : n3 ≡ n3
unfolding handle_request_vote text_eq
one_vote_per_term_example =
    one_vote_per_term scripted voter voted (ballot n3) (ballot n3) quiet quiet voter-IsValid refl
      refl here refl refl refl (λ e. cc)

vote_granted_iff_example :
    Ensures
      (λ r.
        (r.0.vote_granted ≡ deserves_vote voter (ballot n3) Node.dummy_entry)
        × (r.0.vote_granted ≡ true → (r.1.voted_for ≡ n3) × (r.1.current_term ≡ 2))
        × (r.1.logs ≡ voter.logs)
        × (r.0.term ≡ r.1.current_term))
      (handle_request_vote scripted voter (ballot n3) quiet)
vote_granted_iff_example = vote_granted_iff scripted voter (ballot n3) quiet refl

abbrev one_yes : Script
one_yes = record quiet { vote_replies = none ∷ yea ∷ [] }

elected_by_majority_example : 3 < 2 * (1 + granted (none ∷ yea ∷ []))
unfolding start_election
elected_by_majority_example = elected_by_majority scripted voter one_yes refl refl refl

abbrev behind : RaftNode
behind = record boss { commit_index = 2 }

apply_committed_logs_lem_example :
    apply_committed_logs scripted behind quiet
    ≡ some (record behind { last_applied = 2 }, put_all scripted quiet (entry 1 1 ∷ entry 1 2 ∷ []))
apply_committed_logs_lem_example =
    apply_committed_logs_lem scripted behind quiet (omega arith) (omega arith)

new_commit_index-IsQuorumIndex_example :
    (c : ℕ) × (new_commit_index boss ≡ some c) × IsQuorumIndex (match_indices boss) c
unfolding match_indices
new_commit_index-IsQuorumIndex_example = new_commit_index-IsQuorumIndex boss (omega arith)

-- A leader with one peer, which holds nothing.
abbrev pair_boss : RaftNode
pair_boss = record boss { peers = n2 ∷ []; match_index = (n2, 0) ∷ [] }

half_commits_example :
    (new_commit_index pair_boss ≡ some 2)
    × ¬ (length (match_indices pair_boss) < 2 * count_ge 2 (match_indices pair_boss))
unfolding match_indices
half_commits_example = half_commits pair_boss 1 2 refl (omega arith) (omega arith) refl

stalled_replication_example :
    Ensures
      (λ r.
        (r.1.logs ≡ voter.logs)
        × (length r.1.logs ≤ index_of n2 (record_success boss n2 1).match_index))
      (handle_append_entries scripted voter (heartbeat_args boss 1 Node.dummy_entry) quiet)
stalled_replication_example =
    stalled_replication scripted boss voter n2 1 Node.dummy_entry quiet voter-IsValid (omega arith)
      (omega arith) (omega arith) (omega arith)

stale_vote_refuses_example :
    Ensures
      (λ r.
        Ensures
          (λ s. s.0.vote_granted ≡ false)
          (handle_request_vote scripted r.1 (ballot n3) quiet))
      (handle_append_entries scripted voter append_one quiet)
stale_vote_refuses_example =
    stale_vote_refuses scripted voter append_one (ballot n3) quiet quiet voter-IsValid
      append_one-IsSound (omega arith) (λ e. cc) n3≢n2 refl
