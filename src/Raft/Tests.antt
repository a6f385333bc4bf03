-- ===== src/Raft/Tests.antt =====
-- A scripted environment and concrete nodes for the consensus layer (raft/), and runs of it.
use yolo_server.Prelude.{
  ℕ, ◌≤◌, ◌<◌, ◌≡◌, refl, true, none, some, Option, List, [], ◌∷◌, ◌++◌, arith, length, Text, codes,
}
use yolo_server.Raft.Types.{
  RaftState, follower, leader, LogEntry, RequestVoteArgs, RequestVoteReply, AppendEntriesArgs,
  AppendEntriesReply, RaftNode,
}
use yolo_server.Raft.Env.{Env}
use yolo_server.Prelude.{text_eq}
use yolo_server.Prelude.Assoc.{lookup, insert, erase}
use yolo_server.Raft.Node
use yolo_server.Raft.Node.{
  handle_append_entries, handle_request_vote, submit_log, advance_commit, apply_committed_logs,
  log_matches, merge_entries, init,
}
use yolo_server.Raft.Election.{start_election}
use yolo_server.Raft.Heartbeat.{heartbeat_round, index_of}
use yolo_server.Raft.Log.{IndexedFrom}
use yolo_server.Raft.Invariant.{IsValid, IsSound}
use yolo_server.Prelude.{Ensures}

-- A clock that stands still, timeouts of 200 ms, a database that stores everything, and lists of
-- the replies that peers will give.
pub record Script : Type 0 where
  pub clock : ℕ
  pub stored : List (Text × Text)
  pub vote_replies : List (Option RequestVoteReply)
  pub append_replies : List (Option AppendEntriesReply)

abbrev pub next_vote : List (Option RequestVoteReply) → Script → Option RequestVoteReply × Script
next_vote [] s = (none, s)
next_vote (r ∷ rs) s = (r, record s { vote_replies = rs })

abbrev pub next_append :
    List (Option AppendEntriesReply) → Script → Option AppendEntriesReply × Script
next_append [] s = (none, s)
next_append (r ∷ rs) s = (r, record s { append_replies = rs })

abbrev pub scripted : Env
scripted = record {
  World = Script;
  now = λ s. (s.clock, s);
  draw_timeout = λ s. (200, s);
  put = λ s k v. (true, record s { stored = s.stored ++ (k, v) ∷ [] });
  send_request_vote = λ s p args. next_vote s.vote_replies s;
  send_append_entries = λ s p args. next_append s.append_replies s;
  timeout_range = λ s. (omega arith, omega arith);
}

abbrev pub quiet : Script
quiet = record { clock = 1000; stored = []; vote_replies = []; append_replies = [] }

abbrev pub yea : Option RequestVoteReply
yea = some (record { term = 1; vote_granted = true })

abbrev pub ack : Option AppendEntriesReply
ack = some (record { term = 1; success = true })

abbrev pub n1 : Text
n1 = codes "node1"

abbrev pub n2 : Text
n2 = codes "node2"

abbrev pub n3 : Text
n3 = codes "node3"

abbrev pub entry : ℕ → ℕ → LogEntry
entry term index = record { term = term; index = index; key = codes "k"; value = codes "v" }

abbrev pub node_at : ℕ → Text → RaftState → List LogEntry → RaftNode
node_at term voted state logs = record {
  node_id = n1;
  peers = n2 ∷ n3 ∷ [];
  peer_addresses = [];
  running = true;
  current_term = term;
  voted_for = voted;
  logs = logs;
  commit_index = 0;
  last_applied = 0;
  next_index = (n2, 1) ∷ (n3, 1) ∷ [];
  match_index = (n2, 0) ∷ (n3, 0) ∷ [];
  state = state;
  last_heartbeat_time = 0;
  election_timeout_ms = 200;
}

-- A follower that has voted for node2 in term 1, and a leader of term 1 with two entries.
abbrev pub voter : RaftNode
voter = node_at 1 n2 follower (Node.dummy_entry ∷ [])

abbrev pub boss : RaftNode
boss = node_at 1 n1 leader (Node.dummy_entry ∷ entry 1 1 ∷ entry 1 2 ∷ [])

node_at-IsValid :
    (term : ℕ) (voted : Text) (state : RaftState) (logs : List LogEntry)
    → IndexedFrom 0 logs
    → 1 ≤ length logs
    → length logs < 18446744073709551616
    → IsValid (node_at term voted state logs)
unfolding lookup text_eq
node_at-IsValid term voted state logs ix some_entry fits = record {
  indexed = ix;
  committed = omega arith;
  applied = refl;
  fits = fits;
  tracked = (refl, (refl, tt));
  ready = λ h. record {
    next_known = ((1, refl, omega arith, omega arith), ((1, refl, omega arith, omega arith), tt));
    match_below = (omega arith, (omega arith, tt));
  };
}

pub voter-IsValid : IsValid voter
voter-IsValid =
    node_at-IsValid 1 n2 follower (Node.dummy_entry ∷ []) (refl, tt) (omega arith) (omega arith)

pub boss-IsValid : IsValid boss
boss-IsValid =
    node_at-IsValid 1 n1 leader (Node.dummy_entry ∷ entry 1 1 ∷ entry 1 2 ∷ [])
      (refl, (refl, (refl, tt))) (omega arith) (omega arith)

abbrev pub ballot : Text → RequestVoteArgs
ballot id = record { term = 2; candidate_id = id; last_log_index = 0; last_log_term = 0 }

-- The leader of term 2 sends one entry.
abbrev pub append_one : AppendEntriesArgs
append_one = record {
  term = 2;
  leader_id = n2;
  prev_log_index = 0;
  prev_log_term = 0;
  entries = entry 2 1 ∷ [];
  leader_commit = 1;
}

pub append_one-IsSound : IsSound voter append_one
append_one-IsSound = record {
  positions = (refl, tt);
  respects = (λ l le e. absurd (omega arith), tt);
  room = omega arith;
}

-- The follower stores the entry, commits it and puts it into the database.
append_one_runs :
    Ensures
      (λ r.
        (r.0.success ≡ true) × (r.1.commit_index ≡ 1) × (r.2.stored ≡ (codes "k", codes "v") ∷ []))
      (handle_append_entries scripted voter append_one quiet)
unfolding handle_append_entries advance_commit apply_committed_logs log_matches merge_entries
append_one_runs = (refl, refl, refl)

-- Node 3 votes yes, and that is enough.
election_runs :
    Ensures
      (λ r. r.0.state ≡ leader)
      (start_election scripted voter (record quiet { vote_replies = none ∷ yea ∷ [] }))
unfolding start_election
election_runs = refl

-- Both peers acknowledge the heartbeat, and the leader commits.
heartbeat_runs :
    Ensures
      (λ r. (r.0.commit_index ≡ 2) × (length r.1.stored ≡ 2))
      (heartbeat_round scripted boss (record quiet { append_replies = ack ∷ ack ∷ [] }))
unfolding heartbeat_round apply_committed_logs index_of insert lookup erase text_eq
heartbeat_runs = (refl, refl)
