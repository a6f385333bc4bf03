-- ===== src/Server/Framing.antt =====
-- recvMessage of server/Protocol.cpp, on a stream socket.
use yolo_server.Prelude.{
  drop_all, take_all, ◌⊎◌, ℕ, ◌+◌, ◌*◌, ◌≤◌, ◌<◌, ◌≡◌, refl, sym, ap, ◌∙◌, true, false, some, Text,
  [], ◌∷◌, ◌++◌, arith, length, take, drop, length-append, append_assoc,
}
use yolo_server.Server.Socket.{Socket, IsStream}
use yolo_server.Server.Protocol.{htonl, ntohl, recv_body, recv_message}
use yolo_server.Server.Headers.{
  frame, ntohl-htonl, nonzero, allowed, forbidden, ntohl_four, overwrite_all, length-htonl,
}

module _ (S : Socket) (I : IsStream S) where
  open S use {World, recv, send}
  open I use {pending, sent}

  -- Receiving as many bytes as wait in front.
  recv_front :
      (fd : ℕ) (w : World) (n : ℕ) (xs ys : Text)
      → length xs ≡ n
      → pending w fd ≡ xs ++ ys
      → ((recv w fd n).0 ≡ some xs) × (pending (recv w fd n).1 fd ≡ ys)
  recv_front fd w n xs ys size waits = (
    I.recv_bytes w fd n enough ∙ ap some (ap (take n) waits ∙ rw (sym size) (take_all xs ys)),
    I.recv_rest w fd n enough ∙ ap (drop n) waits ∙ rw (sym size) (drop_all xs ys),
  )
    where
      enough : n ≤ length (pending w fd)
      enough = omega (arith, size, ap length waits, length-append xs ys)

  recv_body-front :
      (fd : ℕ) (out : Text) (w : World) (msg rest : Text)
      → 1 ≤ length msg
      → pending w fd ≡ msg ++ rest
      → recv_body S fd out (length msg) w ≡ (true, msg, (recv w fd (length msg)).1)
  unfolding recv_body
  recv_body-front fd out w msg rest h waits =
      rw
        (
          (recv_front fd w (length msg) msg rest refl waits).0,
          nonzero (length msg) h,
          overwrite_all out msg,
        )
        refl

  -- A whole header of an allowed length: the body is received.
  recv_message_good :
      (fd : ℕ) (out : Text) (w : World) (header : Text)
      → (recv w fd 4).0 ≡ some header
      → length header ≡ 4
      → 1 ≤ ntohl header
      → ntohl header ≤ 1048576
      → recv_message S fd out w ≡ recv_body S fd out (ntohl header) (recv w fd 4).1
  unfolding recv_message
  recv_message_good fd out w header e whole low high =
      rw (e, whole, allowed (ntohl header) low high) refl

  -- A whole header of another length: the message is refused, and nothing more is received.
  recv_message_bad :
      (fd : ℕ) (out : Text) (w : World) (header : Text)
      → (recv w fd 4).0 ≡ some header
      → length header ≡ 4
      → (ntohl header ≡ 0) ⊎ (1048576 < ntohl header)
      → recv_message S fd out w ≡ (false, out, (recv w fd 4).1)
  unfolding recv_message
  recv_message_bad fd out w header e whole bad = rw (e, whole, forbidden (ntohl header) bad) refl

  -- With a framed message of 1 to 1048576 bytes in front of the bytes that wait on a stream
  -- socket, recvMessage returns true with exactly this message, whatever the buffer held, and
  -- leaves the bytes behind it.
  pub recv_message-frame :
      (fd : ℕ) (out : Text) (w : World) (msg rest : Text)
      → 1 ≤ length msg
      → length msg ≤ 1048576
      → pending w fd ≡ frame msg ++ rest
      → let r = recv_message S fd out w in (r.0 ≡ true) × (r.1 ≡ msg) × (pending r.2 fd ≡ rest)
  recv_message-frame fd out w msg rest low high waits =
      let n = length msg in
      let header =
        recv_front fd w 4 (htonl n) (msg ++ rest) (length-htonl n)
          (waits ∙ append_assoc (htonl n) msg rest) in
      let value = ntohl-htonl n (omega arith) in
      let w1 = (recv w fd 4).1 in
      let good =
        recv_message_good fd out w (htonl n) header.0 (length-htonl n) (omega (arith, value))
          (omega (arith, value)) in
      rw (good, value, recv_body-front fd out w1 msg rest low header.1)
        (refl, refl, (recv_front fd w1 n msg rest refl header.1).1)

  -- With at least four bytes waiting, of which the first four, read as a big-endian number, are no
  -- length from 1 to 1048576, recvMessage returns false, keeps the buffer and takes exactly these
  -- four bytes.
  pub recv_message-refused :
      (fd : ℕ) (out : Text) (w : World) (a b c d : ℕ) (rest : Text)
      → pending w fd ≡ a ∷ b ∷ c ∷ d ∷ rest
      → let n = ((a * 256 + b) * 256 + c) * 256 + d in
        (n ≡ 0) ⊎ (1048576 < n)
        → let r = recv_message S fd out w in (r.0 ≡ false) × (r.1 ≡ out) × (pending r.2 fd ≡ rest)
  recv_message-refused fd out w a b c d rest waits bad =
      let header = recv_front fd w 4 (a ∷ b ∷ c ∷ d ∷ []) rest refl waits in
      rw
        (recv_message_bad fd out w (a ∷ b ∷ c ∷ d ∷ []) header.0 refl (rw (ntohl_four a b c d) bad))
        (refl, refl, header.1)
