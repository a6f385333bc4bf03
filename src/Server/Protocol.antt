-- ===== src/Server/Protocol.antt =====
-- server/Protocol.cpp: messages with a length in front, over a socket.
use yolo_server.Prelude.{
  ℕ, zero, suc, ◌+◌, ◌-◌, ◌*◌, ◌/◌, ◌%◌, Bool, true, false, ◌||◌, Option, none, some, Text, [], ◌∷◌,
  ◌++◌, ltb, ◌==◌, if◌then◌else◌, length, get_elem?, take, drop,
}
use yolo_server.Server.Socket.{Socket, received}

abbrev pub max_message_size : ℕ
max_message_size = 1048576

-- The four bytes of htonl(n) in memory.
unfoldable pub htonl : ℕ → Text
htonl n = n / 16777216 % 256 ∷ n / 65536 % 256 ∷ n / 256 % 256 ∷ n % 256 ∷ []

abbrev pub byte_at : Text → ℕ → ℕ
byte_at bytes i = elim (get_elem? bytes i) [ none ↦ 0 | some b ↦ b ]

-- `ntohl` of a variable that was 0 before the bytes were received into it.
unfoldable pub ntohl : Text → ℕ
ntohl bytes =
    byte_at bytes 0 * 16777216 + byte_at bytes 1 * 65536 + byte_at bytes 2 * 256 + byte_at bytes 3

abbrev pub zeros : ℕ → Text
zeros zero = []
zeros (suc n) = 0 ∷ zeros n

-- out.resize(len)
unfoldable pub resize : ℕ → Text → Text
resize len out = take len out ++ zeros (len - length out)

-- What a recv into the front of `out` leaves there.
unfoldable pub overwrite : Text → Text → Text
overwrite out bytes = bytes ++ drop (length bytes) out

-- send(...) == size
abbrev pub took : Option ℕ → ℕ → Bool
took none size = false
took (some n) size = n == size

module _ (S : Socket) where
  open S use {World, recv, send}

  -- The second half of recvMessage, once the length is known.
  unfoldable pub recv_body : ℕ → Text → ℕ → World → Bool × Text × World
  recv_body fd out len w =
      let (r, w1) = recv w fd len in
      if length (received r) == 0
      then (false, resize len out, w1)
      else (true, overwrite (resize len out) (received r), w1)

  -- recvMessage: the result, what `out` holds, and the world.
  unfoldable pub recv_message : ℕ → Text → World → Bool × Text × World
  recv_message fd out w =
      let (r, w1) = recv w fd 4 in
      let len = ntohl (received r) in
      if length (received r) == 0
      then (false, out, w1)
      else if len == 0 || ltb max_message_size len
      then (false, out, w1)
      else recv_body fd out len w1

  -- sendMessage
  unfoldable pub send_message : ℕ → Text → World → Bool × World
  send_message fd msg w =
      let (r, w1) = send w fd (htonl (length msg)) in
      if took r 4
      then (let (r2, w2) = send w1 fd msg in (took r2 (length msg), w2))
      else (false, w1)
