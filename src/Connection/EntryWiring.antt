-- ===== src/Connection/EntryWiring.antt =====
-- The theorem on sendAppendEntries between two servers at a concrete request.
use yolo_server.Prelude.{
  true, false, ◌≤◌, ◌≡◌, refl, sym, some, Text, [], ◌∷◌, arith, length, append-nil, codes, text_eq,
}
use yolo_server.Prelude.Exec.{returns}
use yolo_server.Prelude.Assoc.{lookup, text_key, insert, erase}
use yolo_server.Json.Toy.{toy-IsFaithful, write, write_trees, write_members}
use yolo_server.Host.{host_socket, host_net}
use yolo_server.Server.Headers.{frame}
use yolo_server.Server.Protocol.{send_message, htonl}
use yolo_server.Server.Sending.{send_message_lem, send_message_all}
use yolo_server.Pool.Connections.{
  new_pool, get_connection, get_from, get_new, track, create_connection, on_socket, connect_opened,
  connect_loop, queue_of,
}
use yolo_server.Raft.Tests.{voter, append_one}
use yolo_server.Raft.Node.{
  handle_append_entries, advance_commit, apply_committed_logs, log_matches, merge_entries,
}
use yolo_server.Rpc.Messages.{append_request_value, append_reply_value}
use yolo_server.Rpc.Exchange.{Link, send_append_entries}
use yolo_server.Connection.State.{Connection, set_world}
use yolo_server.Connection.Raft.{node_env}
use yolo_server.Connection.Loop.{handle}
use yolo_server.Connection.Asking.{append_run}
use yolo_server.Connection.Exchanging.{once_received, handle-answers}
use yolo_server.Connection.Calling.{
  Wired, append_message, append_answer, send_append_entries-remote,
}
use yolo_server.Connection.Calls.{
  K, known, values, constant, stored_it, appended, append_request_known, append_reply_known,
}
use yolo_server.Connection.Tests.{Machine, machine, machine-IsReliable, with_inbox, alone}
use yolo_server.Connection.TwoWires.{wires, wires-IsStream, there}
use yolo_server.Connection.Wirings.{all_sent, tracked}

abbrev asked_entries : Text
asked_entries = write (append_request_value K append_one)

abbrev answered_entries : Text
answered_entries = write (append_reply_value K stored_it)

asked_entries-short : length (append_message asked_entries) ≤ 1048576
unfolding append_request_value write write_trees write_members
asked_entries-short = omega arith

answered_entries-short : length (append_answer answered_entries) ≤ 1048576
unfolding append_reply_value write write_trees write_members
answered_entries-short = omega arith

abbrev follower_side : Connection machine
follower_side = alone (some voter) (with_inbox (frame (append_message asked_entries)))

abbrev leader_side : Link wires
leader_side = record {
  pool = new_pool;
  world = record {
    inbox = frame (append_answer answered_entries);
    client = [];
    other = [];
    used = false;
  };
}

append_connected :
    get_connection
      (host_net wires)
      there.id
      there.host
      there.port
      leader_side.pool
      leader_side.world
    ≡ (some 7, tracked, record leader_side.world { used = true })
unfolding get_connection get_from get_new track create_connection on_socket connect_opened
    connect_loop queue_of lookup insert erase text_eq
append_connected = refl

-- The follower stores the entry, and its database the value.
abbrev with_entry : Machine → Machine
with_entry w = record w { contents = insert (codes "k") (codes "v") w.contents }

entry_stored :
    (w : Machine)
    → handle_append_entries (node_env machine) voter append_one w
      ≡ some (stored_it, appended, with_entry w)
unfolding handle_append_entries advance_commit apply_committed_logs log_matches merge_entries
entry_stored w = refl

abbrev stored_world : Machine
stored_world = with_entry (once_received follower_side [])

append-Wired :
    Wired K
      (toy-IsFaithful (known values))
      constant
      wires-IsStream
      all_sent
      machine-IsReliable
      there.id
      (append_message asked_entries)
      there.host
      there.port
      leader_side
      7
      follower_side
      stored_world
      []
unfolding send_message htonl
append-Wired = record {
  pool = tracked;
  world = record leader_side.world { used = true };
  connected = append_connected;
  request_arrives =
      (send_message_lem (host_socket wires) wires-IsStream 7 (append_message asked_entries)
          (record leader_side.world { used = true })).0
        (send_message_all (host_socket wires) all_sent 7 (append_message asked_entries)
          (record leader_side.world { used = true }));
  reply_arrives =
      (handle-answers K constant machine-IsReliable follower_side (append_message asked_entries) []
        (append_answer answered_entries) [] appended stored_world (omega arith) asked_entries-short
        (sym (append-nil (frame (append_message asked_entries))))
        (append_run K (toy-IsFaithful (known values)) constant
          (set_world follower_side (once_received follower_side [])) append_one asked_entries
          answered_entries voter appended stored_it stored_world
          (omega arith, omega arith, omega arith, omega arith, ((omega arith, omega arith), tt))
          append_request_known.1 append_reply_known.0 refl
          (entry_stored (once_received follower_side [])))).1;
}

send_append_entries-remote_example :
    ((send_append_entries K
        ((there.id, (there.host, there.port)) ∷ [])
        there.id
        append_one
        leader_side).0
      ≡ returns (some stored_it))
    × ((handle K constant 1 [] follower_side).1.raft_node ≡ some appended)
unfolding lookup text_eq
send_append_entries-remote_example =
    send_append_entries-remote K (toy-IsFaithful (known values)) constant wires-IsStream all_sent
      machine-IsReliable ((there.id, (there.host, there.port)) ∷ []) there.id there.host
      asked_entries answered_entries [] there.port leader_side 7 follower_side append_one stored_it
      voter appended stored_world refl
      (omega arith, omega arith, omega arith, omega arith, ((omega arith, omega arith), tt))
      (omega arith) append_request_known append_reply_known asked_entries-short
      answered_entries-short refl (entry_stored (once_received follower_side [])) append-Wired
