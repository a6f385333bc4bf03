-- ===== src/Connection/Wirings.antt =====
-- The theorem on sendRequestVote between two servers at a concrete request.
use yolo_server.Prelude.{
  true, false, ◌≤◌, ◌≡◌, refl, sym, some, Text, [], ◌∷◌, arith, length, append-nil, text_eq,
}
use yolo_server.Prelude.Exec.{returns}
use yolo_server.Prelude.Assoc.{lookup, text_key, insert, erase}
use yolo_server.Json.Toy.{toy-IsFaithful, write, write_trees, write_members}
use yolo_server.Host.{host_socket, host_net}
use yolo_server.Server.Headers.{frame}
use yolo_server.Server.Protocol.{send_message, htonl}
use yolo_server.Server.Sending.{send_message_lem, send_message_all}
use yolo_server.Pool.Connections.{
  RaftConnectionPool, new_pool, get_connection, get_from, get_new, track, create_connection,
  on_socket, connect_opened, connect_loop, queue_of,
}
use yolo_server.Raft.Tests.{voter, ballot, n2}
use yolo_server.Raft.Node.{handle_request_vote}
use yolo_server.Rpc.Messages.{vote_request_value, vote_reply_value}
use yolo_server.Rpc.Exchange.{Link, send_request_vote}
use yolo_server.Connection.State.{Connection, set_world}
use yolo_server.Connection.Raft.{node_env}
use yolo_server.Connection.Loop.{handle}
use yolo_server.Connection.Relaying.{SendsAll}
use yolo_server.Connection.Asking.{vote_run}
use yolo_server.Connection.Exchanging.{once_received, handle-answers}
use yolo_server.Connection.Calling.{Wired, vote_message, vote_answer, send_request_vote-remote}
use yolo_server.Connection.Calls.{
  K, known, values, constant, granted, voted, vote_request_known, vote_reply_known,
}
use yolo_server.Connection.Tests.{machine, machine-IsReliable, with_inbox, alone}
use yolo_server.Connection.TwoWires.{wires, wires-IsStream, there}

pub all_sent : SendsAll wires
all_sent w fd msg = ground arith

abbrev s : Text
s = write (vote_request_value K (ballot n2))

abbrev t : Text
t = write (vote_reply_value K granted)

s-short : length (vote_message s) ≤ 1048576
unfolding vote_request_value write write_trees write_members
s-short = omega arith

t-short : length (vote_answer t) ≤ 1048576
unfolding vote_reply_value write write_trees write_members
t-short = omega arith

-- The peer, with the request in front of its socket; and the candidate, to which it has answered.
abbrev peer_side : Connection machine
peer_side = alone (some voter) (with_inbox (frame (vote_message s)))

abbrev candidate_side : Link wires
candidate_side = record {
  pool = new_pool;
  world = record { inbox = frame (vote_answer t); client = []; other = []; used = false };
}

abbrev pub tracked : RaftConnectionPool
tracked = record new_pool { fd_to_peer_map = (7, there.id) ∷ [] }

vote_connected :
    get_connection
      (host_net wires)
      there.id
      there.host
      there.port
      candidate_side.pool
      candidate_side.world
    ≡ (some 7, tracked, record candidate_side.world { used = true })
unfolding get_connection get_from get_new track create_connection on_socket connect_opened
    connect_loop queue_of lookup insert erase text_eq
vote_connected = refl

peer_votes :
    handle_request_vote (node_env machine) voter (ballot n2) (once_received peer_side [])
    ≡ some (granted, voted, once_received peer_side [])
unfolding handle_request_vote text_eq
peer_votes = refl

vote-Wired :
    Wired K
      (toy-IsFaithful (known values))
      constant
      wires-IsStream
      all_sent
      machine-IsReliable
      there.id
      (vote_message s)
      there.host
      there.port
      candidate_side
      7
      peer_side
      (once_received peer_side [])
      []
unfolding send_message htonl
vote-Wired = record {
  pool = tracked;
  world = record candidate_side.world { used = true };
  connected = vote_connected;
  request_arrives =
      (send_message_lem (host_socket wires) wires-IsStream 7 (vote_message s)
          (record candidate_side.world { used = true })).0
        (send_message_all (host_socket wires) all_sent 7 (vote_message s)
          (record candidate_side.world { used = true }));
  reply_arrives =
      (handle-answers K constant machine-IsReliable peer_side (vote_message s) [] (vote_answer t) []
        voted (once_received peer_side []) (omega arith) s-short
        (sym (append-nil (frame (vote_message s))))
        (vote_run K (toy-IsFaithful (known values)) constant
          (set_world peer_side (once_received peer_side [])) (ballot n2) s t voter voted granted
          (once_received peer_side []) (omega arith, omega arith, omega arith) vote_request_known.1
          vote_reply_known.0 refl peer_votes)).1;
}

send_request_vote-remote_example :
    ((send_request_vote K
        ((there.id, (there.host, there.port)) ∷ [])
        there.id
        (ballot n2)
        candidate_side).0
      ≡ returns (some granted))
    × ((handle K constant 1 [] peer_side).1.raft_node ≡ some voted)
unfolding lookup text_eq
send_request_vote-remote_example =
    send_request_vote-remote K (toy-IsFaithful (known values)) constant wires-IsStream all_sent
      machine-IsReliable ((there.id, (there.host, there.port)) ∷ []) there.id there.host s t []
      there.port candidate_side 7 peer_side (ballot n2) granted voter voted
      (once_received peer_side []) refl (omega arith, omega arith, omega arith) (omega arith)
      vote_request_known vote_reply_known s-short t-short refl peer_votes vote-Wired
