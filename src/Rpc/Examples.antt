-- ===== src/Rpc/Examples.antt =====
-- The theorem on the exchanges at a machine that sends, and on which no answer arrives.
use yolo_server.Prelude.{true, ℕ, suc, pos, none, some, [], arith, length, codes}
use yolo_server.Json.Toy.{toy}
use yolo_server.Host.{Host, host_net}
use yolo_server.Pool.Net.{would_block}
use yolo_server.Pool.Connections.{new_pool, get_connection}
use yolo_server.Pool.Tests.{system-Descriptors, peer, host, new_pool-IsSound}
use yolo_server.Storage.Database.{not_found}
use yolo_server.Rpc.Messages.{read_vote_reply}
use yolo_server.Rpc.Exchange.{Link, exchange_with}
use yolo_server.Rpc.Pooled.{KeepsOpen, Exchanged, exchange_with-Exchanged}

-- The world is the next descriptor.
abbrev silent : Host
silent = record {
  World = ℕ;
  now = λ w. (1000, w);
  draw_timeout = λ w. (200, w);
  timeout_range = λ w. (omega arith, omega arith);
  sleep_ms = λ ms w. w;
  open_socket = λ w. (some w, suc w);
  set_nonblocking = λ fd w. w;
  set_timeouts = λ w fd. w;
  is_address = λ host. true;
  connect = λ fd host port w. (true, w);
  recv = λ w fd len. (none, w);
  recv_some = λ w fd len. (none, w);
  send = λ w fd bytes. (some (length bytes), w);
  peek = λ fd w. (would_block, w);
  close = λ fd w. w;
  create_directories = λ path w. w;
  open_db = λ path w. (true, w);
  put = λ k v w. (true, w);
  get = λ k w. (not_found, w);
}

silent-KeepsOpen : KeepsOpen silent system-Descriptors
silent-KeepsOpen = record { send_keeps = λ w f bytes fd h. h; recv_keeps = λ w f len fd h. h }

abbrev fresh : Link silent
fresh = record { pool = new_pool; world = 3 }

exchange_with-Exchanged_example :
    let (fd, p, w) = get_connection (host_net silent) peer host (pos 8081) new_pool 3 in
    Exchanged silent-KeepsOpen peer fd p (
      exchange_with
        (toy [])
        (read_vote_reply (toy []))
        peer
        (some (codes "RAFT_REQUEST_VOTE {}"))
        (some (host, pos 8081))
        fresh)
exchange_with-Exchanged_example =
    exchange_with-Exchanged silent-KeepsOpen peer (toy []) (read_vote_reply (toy []))
      (codes "RAFT_REQUEST_VOTE {}") host (pos 8081) fresh (new_pool-IsSound 3)
