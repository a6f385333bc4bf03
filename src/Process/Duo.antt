-- ===== src/Process/Duo.antt =====
-- Two servers of server/Server.cpp, of which the first is elected by the second.
use yolo_server.Prelude.{◌≡◌, refl, true, some, Text, [], ◌∷◌, arith, inl, text_eq, if◌then◌else◌}
use yolo_server.Prelude.Assoc.{insert, erase}
use yolo_server.Cluster.Router.{NodeInfo}
use yolo_server.Raft.Types.{RaftNode, leader, follower, RequestVoteArgs}
use yolo_server.Raft.Node.{dummy_entry, init, handle_request_vote, set_peer_address}
use yolo_server.Raft.Election.{election_tick}
use yolo_server.Raft.Steps.{here, next, elects, votes}
use yolo_server.Raft.Tests.{scripted, Script, quiet, yea}
use yolo_server.Connection.Tests.{machine}
use yolo_server.Connection.Tests
use yolo_server.Process.RaftLife.{start_raft}
use yolo_server.Process.Lifecycle.{Server}
use yolo_server.Process.Accepting.{others, set_addresses, create_raft}
use yolo_server.Process.Tests.{peer, first, two-IsDistinct}
use yolo_server.Process.Electing.{Booted, one_leader_of_servers}

abbrev second : Server machine
second = record first { self = peer }

-- What start creates on a server that has one peer.
abbrev newborn : NodeInfo → NodeInfo → RaftNode
newborn self other = record {
  node_id = self.id;
  peers = other.id ∷ [];
  peer_addresses = (other.id, (other.host, other.port)) ∷ [];
  running = true;
  current_term = 0;
  voted_for = [];
  logs = dummy_entry ∷ [];
  commit_index = 0;
  last_applied = 0;
  next_index = [];
  match_index = [];
  state = follower;
  last_heartbeat_time = 1000;
  election_timeout_ms = 200;
}

first_created : (create_raft first).1.raft_node ≡ some (newborn Tests.here peer)
unfolding create_raft init set_addresses set_peer_address others start_raft insert erase text_eq
first_created = refl

second_created : (create_raft second).1.raft_node ≡ some (newborn peer Tests.here)
unfolding create_raft init set_addresses set_peer_address others start_raft insert erase text_eq
second_created = refl

abbrev later : Script
later = record quiet { clock = 2000; vote_replies = yea ∷ [] }

abbrev winner : RaftNode
winner = record (newborn Tests.here peer) {
  current_term = 1;
  voted_for = Tests.here.id;
  next_index = (peer.id, 1) ∷ [];
  match_index = (peer.id, 0) ∷ [];
  state = leader;
  last_heartbeat_time = 2000;
}

winner_elected :
    election_tick scripted (newborn Tests.here peer) later
    ≡ some (winner, record quiet { clock = 2000 })
unfolding election_tick insert erase text_eq
winner_elected = refl

abbrev request : RequestVoteArgs
request = record { term = 1; candidate_id = Tests.here.id; last_log_index = 0; last_log_term = 0 }

abbrev supporter : RaftNode
supporter = record (newborn peer Tests.here) { current_term = 1; voted_for = Tests.here.id }

supporter_votes :
    handle_request_vote scripted (newborn peer Tests.here) request quiet
    ≡ some (record { term = 1; vote_granted = true }, supporter, quiet)
unfolding handle_request_vote text_eq
supporter_votes = refl

abbrev duo : Text → Booted
duo id =
    if text_eq id Tests.here.id
    then record {
      machine = machine;
      server = first;
      node = newborn Tests.here peer;
      created = first_created;
      env = scripted;
      current = winner;
      run = next here (elects later (record quiet { clock = 2000 }) (omega arith) winner_elected);
    }
    else record {
      machine = machine;
      server = second;
      node = newborn peer Tests.here;
      created = second_created;
      env = scripted;
      current = supporter;
      run =
          next here
            (votes request quiet quiet (record { term = 1; vote_granted = true }) supporter_votes);
    }

one_leader_of_servers_example : Tests.here.id ≡ Tests.here.id
unfolding text_eq
one_leader_of_servers_example =
    one_leader_of_servers (Tests.here ∷ peer ∷ []) duo Tests.here.id Tests.here.id two-IsDistinct
      (λ e. cc, (λ e. cc, tt)) ((refl, refl), ((refl, refl), tt))
      (((inl (refl, refl), tt), tt), (tt, tt)) refl refl refl refl refl
