-- ===== src/Raft/Types.antt =====
-- raft/RaftTypes.h, and the members of the class in raft/RaftNode.h.
use yolo_server.Prelude.{ℕ, ℤ, Bool, true, false, List, Text}
use yolo_server.Prelude.Assoc.{Assoc}

pub data RaftState : Type 0 where
  follower candidate leader : RaftState

pub record LogEntry : Type 0 where
  pub term : ℕ  -- uint64_t
  pub index : ℕ  -- uint64_t
  pub key : Text
  pub value : Text

pub record RequestVoteArgs : Type 0 where
  pub term : ℕ
  pub candidate_id : Text
  pub last_log_index : ℕ
  pub last_log_term : ℕ

pub record RequestVoteReply : Type 0 where
  pub term : ℕ
  pub vote_granted : Bool

pub record AppendEntriesArgs : Type 0 where
  pub term : ℕ
  pub leader_id : Text
  pub prev_log_index : ℕ
  pub prev_log_term : ℕ
  pub entries : List LogEntry
  pub leader_commit : ℕ

pub record AppendEntriesReply : Type 0 where
  pub term : ℕ
  pub success : Bool

-- The members of RaftNode but its mutex, condition variable, threads and connection pool.
pub record RaftNode : Type 0 where
  pub node_id : Text
  pub peers : List Text
  pub peer_addresses : Assoc Text (Text × ℤ)
  pub running : Bool
  pub current_term : ℕ
  pub voted_for : Text
  pub logs : List LogEntry
  pub commit_index : ℕ
  pub last_applied : ℕ
  pub next_index : Assoc Text ℕ
  pub match_index : Assoc Text ℕ
  pub state : RaftState
  pub last_heartbeat_time : ℕ
  pub election_timeout_ms : ℕ

-- `state == RaftState::Leader`
abbrev pub is_leader : RaftState → Bool
is_leader leader = true
is_leader _ = false
