-- ===== src/Server/Tests.antt =====
-- A socket that answers from one list of bytes and records what is sent, and runs of
-- server/Protocol.cpp over it.
use yolo_server.Prelude.{
  ◌≡◌, refl, sym, ap, true, some, Text, [], ◌∷◌, ◌++◌, arith, length, take, drop, length-take,
  take_whole, codes,
}
use yolo_server.Server.Socket.{Socket, IsStream}
use yolo_server.Server.Protocol.{
  recv_message, send_message, recv_body, resize, overwrite, htonl, ntohl,
}

pub record Pipe : Type 0 where
  pub inbox : Text
  pub outbox : Text

abbrev pub pipe : Socket
pipe = record {
  World = Pipe;
  recv = λ w fd len. (some (take len w.inbox), record w { inbox = drop len w.inbox });
  send = λ w fd bytes. (some (length bytes), record w { outbox = w.outbox ++ bytes });
}

abbrev pub pipe-IsStream : IsStream pipe
pipe-IsStream = record {
  pending = λ w fd. w.inbox;
  sent = λ w fd. w.outbox;
  send_sent = λ w fd bytes. ap (λ xs. w.outbox ++ xs) (sym (take_whole bytes));
  send_le = λ w fd bytes n e. ground (arith, e);
  recv_le = λ w fd len. omega (arith, length-take len w.inbox);
  recv_bytes = λ w fd len h. refl;
  recv_rest = λ w fd len h. refl;
}

abbrev pub hello : Text
hello = codes "hi"

abbrev pub inbox_of : Text → Pipe
inbox_of bytes = record { inbox = bytes; outbox = [] }

receives :
    recv_message pipe 3 [] (inbox_of (0 ∷ 0 ∷ 0 ∷ 2 ∷ 104 ∷ 105 ∷ 7 ∷ []))
    ≡ (true, hello, inbox_of (7 ∷ []))
unfolding recv_message recv_body ntohl resize overwrite
receives = refl

sends :
    send_message pipe 3 hello (inbox_of [])
    ≡ (true, record { inbox = []; outbox = 0 ∷ 0 ∷ 0 ∷ 2 ∷ hello })
unfolding send_message htonl
sends = refl

-- A body that ends early is taken for a message: the missing bytes are those of the message before.
short_body :
    (recv_message pipe 3 (codes "abcd") (inbox_of (0 ∷ 0 ∷ 0 ∷ 4 ∷ hello))).1 ≡ codes "hicd"
unfolding recv_message recv_body ntohl resize overwrite
short_body = refl
