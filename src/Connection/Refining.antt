-- ===== src/Connection/Refining.antt =====
-- The loop of server/Connection.cpp against a map from image ids to frames.
use mathlib.Core.Bool.{Bool}
use yolo_server.Prelude.{
  subst, append-nil, ℕ, suc, ◌≤◌, ◌≡◌, refl, sym, ap, ◌∙◌, true, false, Text, List, [], ◌∷◌, ◌++◌,
  append_assoc, length, arith,
}
use yolo_server.Prelude.Exec.{Outcome, returns}
use yolo_server.Prelude.Assoc.{text_key}
use yolo_server.Json.Interface.{Json, IsFaithful}
use yolo_server.Host.{Host, host_socket}
use yolo_server.Server.Headers.{frame}
use yolo_server.Server.Protocol.{recv_message}
use yolo_server.Server.Framing.{recv_message-frame}
use yolo_server.Connection.State.{Connection, set_world}
use yolo_server.Connection.Loop.{handle, on_received}
use yolo_server.Connection.Machine.{IsReliable, recv_message-Kept}
use yolo_server.Connection.Requests.{
  ping_request, bare_store, bare_get, broken_store, unknown_request, Request, store_request,
  get_request, Table, message_of, update, answer_of, framed, incoming, outgoing, updates, Holds,
  IsAllowed, AreAllowed,
}
use yolo_server.Connection.Handling.{Handled, Holds-keeps, handle-Handled}

module _ (K : Json) {H : Host} (R : IsReliable H) (hash : Text → ℕ) (F : IsFaithful K) where
  open R.stream use {sent, pending}
  open R.durable use {stored}

  -- One round of the loop, with a whole message in front of what waits.
  handle_round :
      (n : ℕ) (out msg rest : Text) (c : Connection H)
      → 1 ≤ length msg
      → length msg ≤ 1048576
      → pending c.world c.fd ≡ frame msg ++ rest
      → let w = (recv_message (host_socket H) c.fd out c.world).2 in
        handle K hash (suc n) out c
        ≡ on_received K hash (handle K hash n) (true, msg) (set_world c w)
  unfolding handle
  handle_round n out msg rest c low high waits =
      let (got, read, rest_waits) =
        recv_message-frame (host_socket H) R.stream c.fd out c.world msg rest low high waits in
      rw (got, read) refl

  message-nonempty :
      (c : Connection H) (table : Table K) (r : Request K)
      → IsAllowed K hash c table r
      → 1 ≤ length (message_of K r)
  message-nonempty c table (unknown_request msg) fits = fits.0
  message-nonempty c table (store_request s f) fits = omega arith
  message-nonempty c table (broken_store s) fits = omega arith
  message-nonempty c table (get_request id) fits = omega arith
  message-nonempty c table ping_request fits = omega arith
  message-nonempty c table bare_store fits = omega arith
  message-nonempty c table bare_get fits = omega arith

  on_received-Handled :
      (n : ℕ) (table : Table K) (r : Request K) (c : Connection H)
      (h : Handled K R hash F c table r)
      → on_received K hash (handle K hash n) (true, message_of K r) c
        ≡ handle K hash n (message_of K r) (set_world c h.after)
  unfolding on_received
  on_received-Handled n table r c h = rw h.run refl

  -- One round of the loop leads to the next, on a world that the map and the answer describe.
  handle-Round :
      (n : ℕ) (table : Table K) (r : Request K) (c : Connection H) (out rest : Text)
      → c.storage.is_open ≡ true
      → Holds K R c.world table
      → IsAllowed K hash c table r
      → length (message_of K r) ≤ 1048576
      → pending c.world c.fd ≡ frame (message_of K r) ++ rest
      → (w : H.World) × (handle K hash (suc n) out c
          ≡ handle K hash n (message_of K r) (set_world c w))
        × Holds K R w (update K r table)
        × (sent w c.fd ≡ sent c.world c.fd ++ framed K (answer_of K r table))
        × (pending w c.fd ≡ rest)
  handle-Round n table r c out rest opened holds fits short waits =
      let got =
        recv_message-frame (host_socket H) R.stream c.fd out c.world (message_of K r) rest
          (message-nonempty c table r fits) short waits in
      let kept = recv_message-Kept R c.fd out c.world in
      let w1 = (recv_message (host_socket H) c.fd out c.world).2 in
      let h =
        handle-Handled K R hash F (set_world c w1) table r opened
          (Holds-keeps K R hash F c.world w1 table kept.1 holds) fits in
      (
        h.after,
        handle_round n out (message_of K r) rest c (message-nonempty c table r fits) short waits
            ∙ on_received-Handled n table r (set_world c w1) h,
        h.holds,
        h.wire ∙ ap (λ xs. xs ++ framed K (answer_of K r table)) kept.0,
        h.waiting ∙ got.2,
      )

  -- The rounds have ended, and the client, the database and the socket are as the map says.
  pub record AreAnswered (rs : List (Request K)) (table : Table K) (c : Connection H) (rest : Text)
      (r : Outcome Bool × Connection H) : Type 0 where
    pub ends : r.0 ≡ returns false
    pub wire : sent r.1.world c.fd ≡ sent c.world c.fd ++ outgoing K rs table
    pub holds : Holds K R r.1.world (updates K rs table)
    pub waiting : pending r.1.world c.fd ≡ rest

  -- On a machine on which nothing fails: with the messages of a list of requests waiting on the
  -- socket (STORE of frames that can be printed, and GET of what is stored, of keys that this
  -- server owns; PING; and malformed ones), none longer than a message may be, as many rounds of
  -- handle as there are requests return; what was sent to the client then is the answers, in order,
  -- that a map from image ids to frames gives, with none for a STORE of one word; the database has
  -- the frames of the map after the requests, and what waited behind the messages still waits.
  pub handle-Holds :
      (rs : List (Request K)) (table : Table K) (c : Connection H) (out rest : Text)
      → c.storage.is_open ≡ true
      → Holds K R c.world table
      → AreAllowed K hash c table rs
      → pending c.world c.fd ≡ incoming K rs ++ rest
      → AreAnswered rs table c rest (handle K hash (length rs) out c)
  unfolding handle
  handle-Holds [] table c out rest opened holds allowed waits = record {
    ends = refl;
    wire = sym (append-nil (sent c.world c.fd));
    holds = holds;
    waiting = waits;
  }
  handle-Holds (r ∷ rs) table c out rest opened holds (fits, short, later) waits =
      let (w, run, held, wire, waiting) =
        handle-Round (length rs) table r c out (incoming K rs ++ rest) opened holds fits short
          (waits ∙ append_assoc (frame (message_of K r)) (incoming K rs) rest) in
      let ih =
        handle-Holds rs (update K r table) (set_world c w) (message_of K r) rest opened held later
          waiting in
      subst (AreAnswered (r ∷ rs) table c rest) (sym run) (record {
        ends = ih.ends;
        wire =
            ih.wire
            ∙ ap (λ xs. xs ++ outgoing K rs (update K r table)) wire
            ∙ append_assoc (sent c.world c.fd) (framed K (answer_of K r table))
                (outgoing K rs (update K r table));
        holds = ih.holds;
        waiting = ih.waiting;
      })
