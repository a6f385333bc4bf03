-- ===== src/Pool/Tests.antt =====
-- A system that gives out descriptors in order and connects at once, and runs of
-- raft/RaftConnectionPool.cpp over it.
use yolo_server.Prelude.{
  ℕ, suc, ◌<◌, ◌≡◌, refl, pos, true, some, Text, [], ◌∷◌, arith, codes, text_eq,
}
use yolo_server.Prelude.Assoc.{lookup, insert, erase, text_key, nat_key}
use yolo_server.Pool.Net.{Net, Descriptors, would_block}
use yolo_server.Pool.Connections.{
  RaftConnectionPool, new_pool, released, queue_of, set_queue, get_connection, get_from, get_new,
  track, create_connection, on_socket, connect_opened, connect_loop,
}
use yolo_server.Pool.Invariant.{IsSound}

-- The world is the next descriptor.
abbrev pub system : Net
system = record {
  World = ℕ;
  now = λ w. (1000, w);
  sleep_ms = λ ms w. w;
  open_socket = λ w. (some w, suc w);
  set_nonblocking = λ fd w. w;
  is_address = λ host. true;
  connect = λ fd host port w. (true, w);
  peek = λ fd w. (would_block, w);
  close = λ fd w. w;
}

abbrev pub system-Descriptors : Descriptors system
system-Descriptors = record {
  IsOpen = λ w fd. fd < w;
  now_keeps = λ w fd h. h;
  sleep_keeps = λ ms w fd h. h;
  open_keeps = λ w fd h. omega (arith, h);
  open_new = λ w fd e h. ground (arith, e, h);
  open_opens = λ w fd e. ground (arith, e);
  nonblocking_keeps = λ f w fd h. h;
  connect_keeps = λ f host port w fd h. h;
  peek_keeps = λ f w fd h. h;
  close_keeps = λ f w fd apart h. h;
}

abbrev pub peer : Text
peer = codes "node2"

abbrev pub host : Text
host = codes "127.0.0.1"

pub new_pool-IsSound : (w : ℕ) → IsSound system-Descriptors new_pool w
unfolding queue_of lookup
new_pool-IsSound w p = record { bounded = omega arith; distinct = tt; tracked = tt }

-- The pool once a connection with descriptor 3 was made for the peer.
abbrev pub in_use : RaftConnectionPool
in_use = record new_pool { fd_to_peer_map = (3, peer) ∷ [] }

pub in_use-IsSound : (w : ℕ) → IsSound system-Descriptors in_use w
unfolding queue_of lookup
in_use-IsSound w p = record { bounded = omega arith; distinct = tt; tracked = tt }

made : get_connection system peer host (pos 8081) new_pool 3 ≡ (some 3, in_use, 4)
unfolding get_connection get_from get_new track create_connection on_socket connect_opened
    connect_loop queue_of lookup insert erase
made = refl

reused :
    get_connection system peer host (pos 8081) (set_queue peer (released 3 1000 ∷ []) in_use) 4
    ≡ (some 3, set_queue peer [] (set_queue peer (released 3 1000 ∷ []) in_use), 4)
unfolding get_connection get_from queue_of lookup insert set_queue text_eq
reused = refl
