-- ===== src/Raft/Trio.antt =====
-- Three nodes of raft/RaftNode.cpp, of which the first wins the first election with the vote of the
-- third, while the second cannot be reached.
use yolo_server.Prelude.{
  ◌≡◌, refl, none, some, List, [], ◌∷◌, arith, Text, inl, text_eq, true, false, if◌then◌else◌,
}
use yolo_server.Prelude.Assoc.{insert, erase}
use yolo_server.Raft.Types.{RaftNode, leader, follower, RequestVoteArgs}
use yolo_server.Raft.Node.{dummy_entry, init, handle_request_vote}
use yolo_server.Raft.Election.{election_tick}
use yolo_server.Raft.Invariant.{IsValid}
use yolo_server.Raft.Steps.{init-IsValid, here, next, elects, votes}
use yolo_server.Raft.Tests.{scripted, Script, quiet, yea, n1, n2, n3}
use yolo_server.Raft.Safety.{Member, IsCluster, one_leader_per_term}

abbrev newborn : Text → List Text → RaftNode
newborn id peers = record {
  node_id = id;
  peers = peers;
  peer_addresses = [];
  running = false;
  current_term = 0;
  voted_for = [];
  logs = dummy_entry ∷ [];
  commit_index = 0;
  last_applied = 0;
  next_index = [];
  match_index = [];
  state = follower;
  last_heartbeat_time = 1000;
  election_timeout_ms = 200;
}

newborn-IsValid : (id : Text) (peers : List Text) → IsValid (newborn id peers)
unfolding init
newborn-IsValid id peers = init-IsValid scripted id peers quiet

abbrev later : Script
later = record quiet { clock = 2000; vote_replies = none ∷ yea ∷ [] }

abbrev winner : RaftNode
winner = record (newborn n1 (n2 ∷ n3 ∷ [])) {
  current_term = 1;
  voted_for = n1;
  next_index = (n3, 1) ∷ (n2, 1) ∷ [];
  match_index = (n3, 0) ∷ (n2, 0) ∷ [];
  state = leader;
  last_heartbeat_time = 2000;
}

winner_elected :
    election_tick scripted (newborn n1 (n2 ∷ n3 ∷ [])) later
    ≡ some (winner, record quiet { clock = 2000 })
unfolding election_tick insert erase text_eq
winner_elected = refl

abbrev request : RequestVoteArgs
request = record { term = 1; candidate_id = n1; last_log_index = 0; last_log_term = 0 }

abbrev supporter : RaftNode
supporter = record (newborn n3 (n1 ∷ n2 ∷ [])) { current_term = 1; voted_for = n1 }

supporter_votes :
    handle_request_vote scripted (newborn n3 (n1 ∷ n2 ∷ [])) request quiet
    ≡ some (record { term = 1; vote_granted = true }, supporter, quiet)
unfolding handle_request_vote text_eq
supporter_votes = refl

abbrev first : Member
first = record {
  env = scripted;
  start = newborn n1 (n2 ∷ n3 ∷ []);
  current = winner;
  run = next here (elects later (record quiet { clock = 2000 }) (omega arith) winner_elected);
}

abbrev second : Member
second = record {
  env = scripted;
  start = newborn n2 (n1 ∷ n3 ∷ []);
  current = newborn n2 (n1 ∷ n3 ∷ []);
  run = here;
}

abbrev third : Member
third = record {
  env = scripted;
  start = newborn n3 (n1 ∷ n2 ∷ []);
  current = supporter;
  run =
      next here
        (votes request quiet quiet (record { term = 1; vote_granted = true }) supporter_votes);
}

abbrev trio : Text → Member
trio id = if text_eq id n1 then first else if text_eq id n2 then second else third

trio-IsCluster : IsCluster (n1 ∷ n2 ∷ n3 ∷ []) trio
unfolding text_eq
trio-IsCluster = record {
  distinct = (refl, (refl, (refl, tt)));
  named = (λ e. cc, (λ e. cc, (λ e. cc, tt)));
  members = (
    record {
      valid = newborn-IsValid n1 (n2 ∷ n3 ∷ []);
      named = refl;
      peers = refl;
      follows = λ e. cc;
    },
    (
      record {
        valid = newborn-IsValid n2 (n1 ∷ n3 ∷ []);
        named = refl;
        peers = refl;
        follows = λ e. cc;
      },
      (
        record {
          valid = newborn-IsValid n3 (n1 ∷ n2 ∷ []);
          named = refl;
          peers = refl;
          follows = λ e. cc;
        },
        tt,
      ),
    ),
  );
  honest = (((inl (refl, refl), tt), tt), (tt, (tt, tt)));
}

one_leader_per_term_example : n1 ≡ n1
unfolding text_eq
one_leader_per_term_example =
    one_leader_per_term (n1 ∷ n2 ∷ n3 ∷ []) trio n1 n1 trio-IsCluster refl refl refl refl refl
