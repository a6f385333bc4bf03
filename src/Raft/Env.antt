-- ===== src/Raft/Env.antt =====
-- What a node calls outside its own class: the clock and the random generator of
-- resetElectionTimer, the database behind applyCommittedLogs, and the two exchanges with a peer.
use yolo_server.Prelude.{ℕ, ◌≤◌, Bool, Option, Text}
use yolo_server.Raft.Types.{
  RequestVoteArgs, RequestVoteReply, AppendEntriesArgs, AppendEntriesReply,
}

-- `none` from an exchange is a call of sendRequestVote or sendAppendEntries that returns false.
pub record Env : Type 1 where
  pub World : Type 0
  pub now : World → ℕ × World
  pub draw_timeout : World → ℕ × World
  pub put : World → Text → Text → Bool × World
  pub send_request_vote : World → Text → RequestVoteArgs → Option RequestVoteReply × World
  pub send_append_entries : World → Text → AppendEntriesArgs → Option AppendEntriesReply × World
  -- uniform_int_distribution(150, 300)
  pub timeout_range : (w : World) → (150 ≤ (draw_timeout w).0) × ((draw_timeout w).0 ≤ 300)
