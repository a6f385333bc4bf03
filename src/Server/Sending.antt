-- ===== src/Server/Sending.antt =====
-- sendMessage of server/Protocol.cpp, on a stream socket.
use mathlib.Core.Bool.{false≢true}
use yolo_server.Prelude.{
  take_past, take_whole, take-append, ==_iff, ℕ, ◌+◌, ◌≤◌, ◌≡◌, refl, sym, ap, ◌∙◌, true, Text,
  ◌++◌, arith, length, take, Bool-cases, Option-cases, inl, inr, append_assoc,
}
use yolo_server.Server.Socket.{Socket, IsStream}
use yolo_server.Server.Protocol.{took, htonl, send_message}
use yolo_server.Server.Headers.{frame, length-htonl}

module _ (S : Socket) (I : IsStream S) where
  open S use {World, send}
  open I use {sent}

  -- One send puts a prefix on the wire, the whole if its result is the size.
  record Sent (w : World) (fd : ℕ) (msg : Text) : Type 0 where
    count : ℕ
    count_le : count ≤ length msg
    wire : sent (send w fd msg).1 fd ≡ sent w fd ++ take count msg
    whole :
        (size : ℕ)
        → length msg ≡ size
        → took (send w fd msg).0 size ≡ true
        → sent (send w fd msg).1 fd ≡ sent w fd ++ msg

  send-Sent : (w : World) (fd : ℕ) (msg : Text) → Sent w fd msg
  send-Sent w fd msg = elim (Option-cases (send w fd msg).0) [
    | inl failed ↦ record {
      count = 0;
      count_le = omega arith;
      wire = I.send_sent w fd msg ∙ rw failed refl;
      whole = λ size e h. absurd (false≢true (ap (λ r. took r size) (sym failed) ∙ h));
    }
    | inr (n, done) ↦ record {
      count = n;
      count_le = I.send_le w fd msg n done;
      wire = I.send_sent w fd msg ∙ rw done refl;
      whole = λ size e h.
          let same : n ≡ length msg =
            (==_iff n size).0 (ap (λ r. took r size) (sym done) ∙ h) ∙ sym e in
          I.send_sent w fd msg ∙ rw (done, same, take_whole msg) refl;
    }
  ]

  -- Whatever the socket takes, sendMessage puts a prefix of the framed message on the wire, and
  -- the whole of it if it returns true.
  pub send_message_lem :
      (fd : ℕ) (msg : Text) (w : World)
      → let r = send_message S fd msg w in
        ((r.0 ≡ true) → sent r.1 fd ≡ sent w fd ++ frame msg)
        × ((k : ℕ) × (sent r.1 fd ≡ sent w fd ++ take k (frame msg)))
  unfolding send_message
  send_message_lem fd msg w = elim (Bool-cases (took (send w fd header).0 4)) [
    | inl done ↦
        let wire = (send-Sent w fd header).whole 4 (length-htonl (length msg)) done in
        let body = send-Sent w1 fd msg in
        rw done (
          λ h.
              body.whole (length msg) refl h
              ∙ ap (λ xs. xs ++ msg) wire
              ∙ append_assoc (sent w fd) header msg,
          (
            length header + body.count,
            body.wire
                ∙ ap (λ xs. xs ++ take body.count msg) wire
                ∙ append_assoc (sent w fd) header (take body.count msg)
                ∙ ap (λ xs. sent w fd ++ xs) (sym (take_past _ body.count header msg refl)),
          ),
        )
    | inr short ↦
        let head = send-Sent w fd header in
        rw short (
          λ h. absurd (false≢true h),
          (
            head.count,
            head.wire
                ∙ ap (λ xs. sent w fd ++ xs)
                    (sym (take-append head.count header msg head.count_le)),
          ),
        )
  ]
    where
      header : Text
      header = htonl (length msg)

      w1 : World
      w1 = (send w fd header).1

-- A socket that takes all bytes takes whole messages.
pub send_message_all :
    (S : Socket)
    → ((w : S.World) (fd : ℕ) (msg : Text) → took (S.send w fd msg).0 (length msg) ≡ true)
    → (fd : ℕ) (msg : Text) (w : S.World) → (send_message S fd msg w).0 ≡ true
unfolding send_message
send_message_all S all fd msg w = rw header (all (S.send w fd (htonl (length msg))).1 fd msg)
  where
    header : took (S.send w fd (htonl (length msg))).0 4 ≡ true
    header =
        ap (took (S.send w fd (htonl (length msg))).0) (sym (length-htonl (length msg)))
        ∙ all w fd (htonl (length msg))
