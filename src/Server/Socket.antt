-- ===== src/Server/Socket.antt =====
-- The two calls of the operating system that server/Protocol.cpp makes on a socket, and what is
-- documented of them on a stream socket.
use yolo_server.Prelude.{ℕ, Option, none, some, Text, [], take, drop, length, ◌≡◌, ◌≤◌, ◌++◌}

pub record Socket : Type 1 where
  pub World : Type 0
  -- recv(fd, buf, len, MSG_WAITALL): `none` is -1, else the bytes that were written to buf.
  pub recv : World → ℕ → ℕ → Option Text × World
  -- send(fd, buf, len, 0): `none` is -1, else the number of bytes that were taken.
  pub send : World → ℕ → Text → Option ℕ × World

-- The bytes that a recv wrote; none on an error, and at the end of the stream.
abbrev pub received : Option Text → Text
received none = []
received (some bytes) = bytes

abbrev pub taken : Option ℕ → Text → Text
taken none msg = []
taken (some n) msg = take n msg

-- A stream socket: bytes wait in order until they are received, and arrive in the order they are
-- sent. The last two laws are those of MSG_WAITALL with enough bytes waiting.
pub record IsStream (S : Socket) : Type 0 where
  pub pending : S.World → ℕ → Text
  pub sent : S.World → ℕ → Text
  pub send_sent :
      (w : S.World) (fd : ℕ) (msg : Text)
      → sent (S.send w fd msg).1 fd ≡ sent w fd ++ taken (S.send w fd msg).0 msg
  pub send_le :
      (w : S.World) (fd : ℕ) (msg : Text) (n : ℕ) → (S.send w fd msg).0 ≡ some n → n ≤ length msg
  pub recv_le : (w : S.World) (fd len : ℕ) → length (received (S.recv w fd len).0) ≤ len
  pub recv_bytes :
      (w : S.World) (fd len : ℕ)
      → len ≤ length (pending w fd)
      → (S.recv w fd len).0 ≡ some (take len (pending w fd))
  pub recv_rest :
      (w : S.World) (fd len : ℕ)
      → len ≤ length (pending w fd)
      → pending (S.recv w fd len).1 fd ≡ drop len (pending w fd)
