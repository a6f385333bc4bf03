-- ===== src/Connection/Forwarding.antt =====
-- What the client hears of a request that server/Connection.cpp forwards.
use mathlib.Core.Bool.{true≢false}
use yolo_server.Prelude.{
  Bool, true, false, ◌⊎◌, none, if_cases, ℕ, ℤ, ◌≡◌, ◌≢◌, refl, sym, ap, ◌∙◌, not, some, Text, [],
  ◌++◌, take, Option-cases, inl, inr, subst,
}
use yolo_server.Prelude.Exec.{returns}
use yolo_server.Host.{Host, host_socket}
use yolo_server.Server.Socket.{IsStream}
use yolo_server.Server.Headers.{frame}
use yolo_server.Server.Protocol.{send_message, recv_message}
use yolo_server.Server.Keeping.{send_message-keeps, recv_message-keeps}
use yolo_server.Server.Sending.{send_message_lem}
use yolo_server.Cluster.Router.{NodeInfo}
use yolo_server.Connection.State.{Connection, set_world}
use yolo_server.Connection.Forward.{
  ErrorCode, ok, connect_failed, recv_failed, fd_fialed, is_connect_failed, connect_with_retry,
  relay, forward_on, forward_to_node,
}
use yolo_server.Connection.Handlers.{forward_request, after_forward}
use yolo_server.Connection.Closing.{connect_with_retry-keeps}

not-true : (b : Bool) → not b ≡ true → b ≡ false
not-true true e = absurd (true≢false (sym e))
not-true false e = refl

not-false : (b : Bool) → not b ≡ false → b ≡ true
not-false true e = refl
not-false false e = absurd (true≢false e)

-- A client's descriptor: socket does not return it, and only a send on it puts bytes on its wire.
pub record HasClient (H : Host) (I : IsStream (host_socket H)) (client : ℕ) : Type 0 where
  pub open_apart : (w : H.World) (f : ℕ) → (H.open_socket w).0 ≡ some f → f ≢ client
  pub open_sent : (w : H.World) → I.sent (H.open_socket w).1 client ≡ I.sent w client
  pub nonblocking_sent :
      (w : H.World) (f : ℕ) → I.sent (H.set_nonblocking f w) client ≡ I.sent w client
  pub sleep_sent : (w : H.World) (ms : ℕ) → I.sent (H.sleep_ms ms w) client ≡ I.sent w client
  pub connect_sent :
      (w : H.World) (f : ℕ) (host : Text) (port : ℤ)
      → I.sent (H.connect f host port w).1 client ≡ I.sent w client
  pub send_other :
      (w : H.World) (f : ℕ) (msg : Text)
      → f ≢ client
      → I.sent (H.send w f msg).1 client ≡ I.sent w client
  pub recv_sent : (w : H.World) (f len : ℕ) → I.sent (H.recv w f len).1 client ≡ I.sent w client
  pub close_sent : (w : H.World) (f : ℕ) → I.sent (H.close f w) client ≡ I.sent w client

module _ {H : Host} (I : IsStream (host_socket H)) {client : ℕ} (C : HasClient H I client) where
  open I use {sent}

  abbrev pub Silent : H.World → H.World → Type 0
  Silent w v = sent v client ≡ sent w client

  -- sendMessage of the text to the client is what has happened: all of it is on the client's wire if it
  -- returned true, and a prefix of it in any case.
  abbrev pub Told : Text → H.World → H.World → Type 0
  Told text w v =
      let (done, after) = send_message (host_socket H) client text w in
      (v ≡ after)
      × (done ≡ true → sent v client ≡ sent w client ++ frame text)
      × ((k : ℕ) × (sent v client ≡ sent w client ++ take k (frame text)))

  pub send_message-Told :
      (text : Text) (w : H.World) → Told text w (send_message (host_socket H) client text w).1
  send_message-Told text w =
      let (whole, part) = send_message_lem (host_socket H) I client text w in (refl, whole, part)

  module _ (node : NodeInfo) (msg : Text) where
    -- Connecting to the node, and sending it the request.
    abbrev pub connecting : ℕ → H.World → Bool × H.World
    connecting fd w =
        connect_with_retry H 5 fd node.host node.port (H.set_nonblocking fd (H.open_socket w).1)

    abbrev pub asking : ℕ → H.World → H.World
    asking fd w = (send_message (host_socket H) fd msg (connecting fd w).1).1

    -- The node was asked on a new socket; its reply, and no more, was sent to the client.
    pub record Answered (w v : H.World) : Type 0 where
      pub fd : ℕ
      pub opened : (H.open_socket w).0 ≡ some fd
      pub connected : (connecting fd w).0 ≡ true
      pub reply : Text
      pub after : H.World
      pub heard : recv_message (host_socket H) fd [] (asking fd w) ≡ (true, reply, after)
      pub quiet : Silent w (H.close fd after)
      pub told : Told reply (H.close fd after) v

    -- The node was asked and did not answer.
    pub record Unheard (w v : H.World) : Type 0 where
      pub fd : ℕ
      pub opened : (H.open_socket w).0 ≡ some fd
      pub connected : (connecting fd w).0 ≡ true
      pub unheard : (recv_message (host_socket H) fd [] (asking fd w)).0 ≡ false
      pub quiet : Silent w v

    -- None of the attempts to connect succeeded.
    pub record Unreached (w v : H.World) : Type 0 where
      pub fd : ℕ
      pub opened : (H.open_socket w).0 ≡ some fd
      pub unconnected : (connecting fd w).0 ≡ false
      pub closed : v ≡ H.close fd (connecting fd w).1
      pub quiet : Silent w v

    abbrev pub NoSocket : H.World → H.World → Type 0
    NoSocket w v = (((H.open_socket w).0 ≡ none) ⊎ (H.is_address node.host ≡ false)) × Silent w v

    -- What forwardToNode does, for each of its results.
    abbrev Relayed : H.World → ErrorCode × H.World → Type 0
    Relayed w (ok, v) = Answered w v
    Relayed w (connect_failed, v) = Unreached w v
    Relayed w (fd_fialed, v) = NoSocket w v
    Relayed w (recv_failed, v) = Unheard w v
    Relayed w (_, v) = ⊥

    -- What has happened when the handler returns, by the result of forwardToNode.
    abbrev pub Heard : Text → H.World → ErrorCode → H.World → Type 0
    Heard failure w ok v = Answered w v
    Heard failure w connect_failed v = (u : H.World) × Unreached w u × Told failure u v
    Heard failure w fd_fialed v = NoSocket w v
    Heard failure w recv_failed v = Unheard w v
    Heard failure w _ v = ⊥

  module _ (w : H.World) where
    pub attempts-Silent :
        (left f : ℕ) (host : Text) (port : ℤ) (v : H.World)
        → Silent w v
        → Silent w (connect_with_retry H left f host port v).1
    attempts-Silent =
        connect_with_retry-keeps H (Silent w)
          (λ u d host port same. C.connect_sent u d host port ∙ same)
          (λ u ms same. C.sleep_sent u ms ∙ same)

    -- Lemmas on one exchange on a descriptor that is not the client's.
    pub ask-Silent :
        (f : ℕ) (msg : Text) (v : H.World)
        → f ≢ client
        → Silent w v
        → Silent w (send_message (host_socket H) f msg v).1
    ask-Silent f msg v apart =
        send_message-keeps (host_socket H) (Silent w) f
          (λ u bytes same. C.send_other u f bytes apart ∙ same) msg v

    pub recv-Silent :
        (f : ℕ) (v : H.World) → Silent w v → Silent w (recv_message (host_socket H) f [] v).2
    recv-Silent f =
        recv_message-keeps (host_socket H) (Silent w) (λ u d len same. C.recv_sent u d len ∙ same) f
          []

    module _ (node : NodeInfo) (msg : Text) (f : ℕ) (opened : (H.open_socket w).0 ≡ some f) where
      connecting-Silent : Silent w (connecting node msg f w).1
      connecting-Silent =
          attempts-Silent 5 f node.host node.port (H.set_nonblocking f (H.open_socket w).1)
            (C.nonblocking_sent (H.open_socket w).1 f ∙ C.open_sent w)

      relay-Relayed :
          (connecting node msg f w).0 ≡ true
          → Relayed node msg w (relay H client msg f (connecting node msg f w).1)
      unfolding relay
      relay-Relayed connected =
          let apart = C.open_apart w f opened in
          let u = (connecting node msg f w).1 in
          let w1 = asking node msg f w in
          let got = recv_message (host_socket H) f [] w1 in
          let w3 = H.close f got.2 in
          let quiet =
            C.close_sent got.2 f ∙ recv-Silent f w1 (ask-Silent f msg u apart connecting-Silent) in
          if_cases (Relayed node msg w) got.0 (ok, (send_message (host_socket H) client got.1 w3).1)
            (recv_failed, w3)
            (λ answered. record {
              fd = f;
              opened = opened;
              connected = connected;
              reply = got.1;
              after = got.2;
              heard = ap (λ b. (b, got.1, got.2)) answered;
              quiet = quiet;
              told = send_message-Told got.1 w3;
            })
            (λ silent. record {
              fd = f;
              opened = opened;
              connected = connected;
              unheard = silent;
              quiet = quiet;
            })

      forward_on-Relayed :
          Relayed node msg w (forward_on H client node msg (some f, (H.open_socket w).1))
      unfolding forward_on
      forward_on-Relayed =
          let w1 = H.set_nonblocking f (H.open_socket w).1 in
          let tried = connecting node msg f w in
          let closed = C.close_sent tried.1 f ∙ connecting-Silent in
          if_cases (Relayed node msg w) (not (H.is_address node.host)) (fd_fialed, H.close f w1) _
            (λ no. (
              inr (not-true (H.is_address node.host) no),
              C.close_sent w1 f ∙ C.nonblocking_sent (H.open_socket w).1 f ∙ C.open_sent w,
            ))
            (λ yes.
              if_cases (Relayed node msg w) (not tried.0) (connect_failed, H.close f tried.1) _
                (λ no. record {
                  fd = f;
                  opened = opened;
                  unconnected = not-true tried.0 no;
                  closed = refl;
                  quiet = closed;
                })
                (λ got. relay-Relayed (not-false tried.0 got)))

  forward_to_node-Relayed :
      (node : NodeInfo) (msg : Text) (w : H.World)
      → Relayed node msg w (forward_to_node H client node msg w)
  unfolding forward_to_node forward_on
  forward_to_node-Relayed node msg w = elim (Option-cases (H.open_socket w).0) [
    | inl failed ↦
        subst (λ o. Relayed node msg w (forward_on H client node msg (o, w1))) (sym failed)
          (inl failed, C.open_sent w)
    | inr (f, opened) ↦
        subst (λ o. Relayed node msg w (forward_on H client node msg (o, w1))) (sym opened)
          (forward_on-Relayed w node msg f opened)
  ]
    where
      w1 : H.World
      w1 = (H.open_socket w).1

-- The handler's own reply after the code.
module _ {H : Host} (I : IsStream (host_socket H)) (c : Connection H) (C : HasClient H I c.fd) where
  after_forward-Heard :
      (node : NodeInfo) (msg failure : Text) (code : ErrorCode) (v : H.World)
      → Relayed I C node msg c.world (code, v)
      → let (result, c1) = after_forward failure (is_connect_failed code) (set_world c v) in
        (result ≡ returns tt) × Heard I C node msg failure c.world code c1.world
  unfolding after_forward
  after_forward-Heard node msg failure ok v told = (refl, told)
  after_forward-Heard node msg failure connect_failed v unreached =
      (refl, (v, unreached, send_message-Told I C failure v))
  after_forward-Heard node msg failure fd_fialed v quiet = (refl, quiet)
  after_forward-Heard node msg failure recv_failed v quiet = (refl, quiet)
  after_forward-Heard node msg failure _ v told = absurd told

  -- A forwarded request always returns, and what the client hears depends on the result of
  -- forwardToNode. On OK the node was asked on a new connection and exactly the reply that came back on
  -- it was sent to the client; if none of the attempts to connect succeeded, exactly the failure text
  -- was; what is sent so is on the client's wire in one frame, whole if sendMessage returned true, and
  -- a prefix of it otherwise. If there was no socket, the host was no address, or no answer was
  -- received, nothing is put on the wire: the client is told neither a result nor an error.
  pub forward_request-Heard :
      (node : NodeInfo) (msg failure : Text)
      → let (result, c1) = forward_request node msg failure c in
        (result ≡ returns tt)
        × Heard I C node msg failure c.world (forward_to_node H c.fd node msg c.world).0 c1.world
  unfolding forward_request
  forward_request-Heard node msg failure =
      after_forward-Heard node msg failure (forward_to_node H c.fd node msg c.world).0
        (forward_to_node H c.fd node msg c.world).1 (forward_to_node-Relayed I C node msg c.world)
