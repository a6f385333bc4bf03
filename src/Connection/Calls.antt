-- ===== src/Connection/Calls.antt =====
-- The theorems on the messages between nodes at concrete messages.
use yolo_server.Prelude.{List, ℕ, ◌≡◌, refl, true, some, Text, [], ◌∷◌, ◌++◌, codes, text_eq}
use yolo_server.Prelude.Assoc.{Assoc, lookup, text_key, insert}
use yolo_server.Json.Interface.{Json, IsPrintable}
use yolo_server.Json.Toy.{Tree, toy, write, write_trees, write_members}
use yolo_server.Raft.Types.{RaftNode, RequestVoteReply, AppendEntriesReply}
use yolo_server.Raft.Tests.{voter, ballot, append_one, n2, entry}
use yolo_server.Raft.Node.{
  handle_request_vote, handle_append_entries, advance_commit, apply_committed_logs, log_matches,
  merge_entries,
}
use yolo_server.Rpc.Messages.{
  vote_request_value, vote_reply_value, append_request_value, append_reply_value,
}
use yolo_server.Connection.Raft.{node_env}
use yolo_server.Connection.Tests.{Machine, machine, with_inbox}

abbrev pub constant : Text → ℕ
constant key = 0

abbrev pub granted : RequestVoteReply
granted = record { term = 2; vote_granted = true }

abbrev pub stored_it : AppendEntriesReply
stored_it = record { term = 2; success = true }

-- What a parser knows: the texts of the four values.
abbrev pub values : List Tree
unfolding vote_request_value vote_reply_value append_request_value append_reply_value
values =
    vote_request_value (toy []) (ballot n2)
    ∷ vote_reply_value (toy []) granted
    ∷ append_request_value (toy []) append_one
    ∷ append_reply_value (toy []) stored_it
    ∷ []

abbrev pub known : List Tree → Assoc Text Tree
known [] = []
known (v ∷ vs) = (write v, v) ∷ known vs

abbrev pub K : Json
K = toy (known values)

abbrev pub voted : RaftNode
voted = record voter {
  current_term = 2;
  voted_for = n2;
  election_timeout_ms = 200;
  last_heartbeat_time = 1000;
}

abbrev pub appended : RaftNode
appended = record voter {
  current_term = 2;
  election_timeout_ms = 200;
  last_heartbeat_time = 1000;
  logs = voter.logs ++ entry 2 1 ∷ [];
  commit_index = 1;
  last_applied = 1;
}

vote_run :
    handle_request_vote (node_env machine) voter (ballot n2) (with_inbox [])
    ≡ some (granted, voted, with_inbox [])
unfolding handle_request_vote text_eq
vote_run = refl

abbrev pub appended_world : Machine
appended_world = record (with_inbox []) { contents = (codes "k", codes "v") ∷ [] }

append_run :
    handle_append_entries (node_env machine) voter append_one (with_inbox [])
    ≡ some (stored_it, appended, appended_world)
unfolding handle_append_entries advance_commit apply_committed_logs log_matches merge_entries insert
append_run = refl

pub vote_request_known :
    IsPrintable K (vote_request_value K (ballot n2)) (write (vote_request_value K (ballot n2)))
unfolding values lookup text_eq write write_trees write_members vote_request_value vote_reply_value
    append_request_value append_reply_value
vote_request_known = (refl, refl)

pub vote_reply_known :
    IsPrintable K (vote_reply_value K granted) (write (vote_reply_value K granted))
unfolding values lookup text_eq write write_trees write_members vote_request_value vote_reply_value
    append_request_value append_reply_value
vote_reply_known = (refl, refl)

pub append_request_known :
    IsPrintable K (append_request_value K append_one) (write (append_request_value K append_one))
unfolding values lookup text_eq write write_trees write_members vote_request_value vote_reply_value
    append_request_value append_reply_value
append_request_known = (refl, refl)

pub append_reply_known :
    IsPrintable K (append_reply_value K stored_it) (write (append_reply_value K stored_it))
unfolding values lookup text_eq write write_trees write_members vote_request_value vote_reply_value
    append_request_value append_reply_value
append_reply_known = (refl, refl)
