-- ===== src/Connection/Closing.antt =====
-- The descriptors that forwardToNode of server/Connection.cpp opens and closes.
use yolo_server.Prelude.{
  subst, Option-cases, ℕ, zero, suc, ℤ, ◌==◌, ==_iff, ◌≡◌, sym, ◌∙◌, Bool, true, false, not, none,
  some, Text, [], if_both, Bool-cases, inl, inr,
}
use yolo_server.Host.{Host, host_socket}
use yolo_server.Server.Keeping.{send_message-keeps, recv_message-keeps}
use yolo_server.Server.Protocol.{send_message, recv_message}
use yolo_server.Cluster.Router.{NodeInfo}
use yolo_server.Connection.Forward.{
  ErrorCode, connect_with_retry, relay, forward_on, forward_to_node,
}

-- Which descriptors are open: socket returns one that was not, close ends the one it is given, and no
-- other call of forwardToNode changes it.
pub record OpenFiles (H : Host) : Type 0 where
  pub is_open : H.World → ℕ → Bool
  pub open_none :
      (w : H.World) (fd : ℕ)
      → (H.open_socket w).0 ≡ none
      → is_open (H.open_socket w).1 fd ≡ is_open w fd
  pub open_fresh : (w : H.World) (f : ℕ) → (H.open_socket w).0 ≡ some f → is_open w f ≡ false
  pub open_other :
      (w : H.World) (f fd : ℕ)
      → (H.open_socket w).0 ≡ some f
      → (f == fd) ≡ false
      → is_open (H.open_socket w).1 fd ≡ is_open w fd
  pub close_this : (w : H.World) (f : ℕ) → is_open (H.close f w) f ≡ false
  pub close_other :
      (w : H.World) (f fd : ℕ) → (f == fd) ≡ false → is_open (H.close f w) fd ≡ is_open w fd
  pub nonblocking_same :
      (w : H.World) (f fd : ℕ) → is_open (H.set_nonblocking f w) fd ≡ is_open w fd
  pub sleep_same : (w : H.World) (ms fd : ℕ) → is_open (H.sleep_ms ms w) fd ≡ is_open w fd
  pub connect_same :
      (w : H.World) (f : ℕ) (host : Text) (port : ℤ) (fd : ℕ)
      → is_open (H.connect f host port w).1 fd ≡ is_open w fd
  pub send_same :
      (w : H.World) (f : ℕ) (msg : Text) (fd : ℕ) → is_open (H.send w f msg).1 fd ≡ is_open w fd
  pub recv_same : (w : H.World) (f len fd : ℕ) → is_open (H.recv w f len).1 fd ≡ is_open w fd

-- What connect and sleep keep, the attempts of connectWithRetry keep.
module _ (H : Host) (P : H.World → Type 0) where
  pub connect_with_retry-keeps :
      ((w : H.World) (f : ℕ) (host : Text) (port : ℤ) → P w → P (H.connect f host port w).1)
      → ((w : H.World) (ms : ℕ) → P w → P (H.sleep_ms ms w))
      → (left fd : ℕ) (host : Text) (port : ℤ) (w : H.World) → P w
      → P (connect_with_retry H left fd host port w).1
  unfolding connect_with_retry
  connect_with_retry-keeps connects sleeps zero fd host port w p = p
  connect_with_retry-keeps connects sleeps (suc left) fd host port w p =
      let w1 = (H.connect fd host port w).1 in
      let p1 = connects w fd host port p in
      if_both (λ (r : Bool × H.World). P r.1) (H.connect fd host port w).0 (true, w1) _ p1
        (connect_with_retry-keeps connects sleeps left fd host port _
          (if_both P (left == 0) w1 (H.sleep_ms 1000 w1) p1 (sleeps w1 1000 p1)))

module _ {H : Host} (O : OpenFiles H) where
  open O use {is_open}

  -- The same descriptors are open in both worlds.
  abbrev pub SameFiles : H.World → H.World → Type 0
  SameFiles w w' = (fd : ℕ) → is_open w' fd ≡ is_open w fd

  -- The same but for one, which is open in the second only.
  abbrev Opened : ℕ → H.World → H.World → Type 0
  Opened f w w' =
      (is_open w f ≡ false) × ((fd : ℕ) → (f == fd) ≡ false → is_open w' fd ≡ is_open w fd)

  -- Closing the one gives the descriptors of the first world.
  close-SameFiles : (f : ℕ) (w w' : H.World) → Opened f w w' → SameFiles w (H.close f w')
  close-SameFiles f w w' (fresh, others) fd = elim (Bool-cases (f == fd)) [
    | inl same ↦
        subst (λ d. is_open (H.close f w') d ≡ is_open w d) ((==_iff f fd).0 same)
          (O.close_this w' f ∙ sym fresh)
    | inr other ↦ O.close_other w' f fd other ∙ others fd other
  ]

  module _ (f : ℕ) (w : H.World) where
    connect-Opened :
        (left : ℕ) (host : Text) (port : ℤ) (w' : H.World)
        → Opened f w w'
        → Opened f w (connect_with_retry H left f host port w').1
    connect-Opened left host port =
        connect_with_retry-keeps H (Opened f w)
          (λ v d host port (fresh, others).
            (fresh, λ fd other. O.connect_same v d host port fd ∙ others fd other))
          (λ v ms (fresh, others). (fresh, λ fd other. O.sleep_same v ms fd ∙ others fd other)) left
          f host port

    send-Opened :
        (msg : Text) (w' : H.World)
        → Opened f w w'
        → Opened f w (send_message (host_socket H) f msg w').1
    send-Opened =
        send_message-keeps (host_socket H) (Opened f w) f
          (λ v msg (fresh, others). (fresh, λ fd other. O.send_same v f msg fd ∙ others fd other))

    recv-Opened :
        (w' : H.World) → Opened f w w' → Opened f w (recv_message (host_socket H) f [] w').2
    recv-Opened =
        recv_message-keeps (host_socket H) (Opened f w)
          (λ v d len (fresh, others). (fresh, λ fd other. O.recv_same v d len fd ∙ others fd other))
          f []

    -- The reply to the client, on any descriptor.
    reply-SameFiles :
        (client : ℕ) (msg : Text) (w' : H.World)
        → SameFiles w w'
        → SameFiles w (send_message (host_socket H) client msg w').1
    reply-SameFiles client =
        send_message-keeps (host_socket H) (SameFiles w) client
          (λ v msg same fd. O.send_same v client msg fd ∙ same fd)

    relay-SameFiles :
        (client : ℕ) (msg : Text) (w' : H.World)
        → Opened f w w'
        → SameFiles w (relay H client msg f w').1
    unfolding relay
    relay-SameFiles client msg w' opened =
        let w1 = (send_message (host_socket H) f msg w').1 in
        let got = recv_message (host_socket H) f [] w1 in
        let closed = close-SameFiles f w got.2 (recv-Opened w1 (send-Opened msg w' opened)) in
        if_both (λ (r : ErrorCode × H.World). SameFiles w r.1) got.0 _ _
          (reply-SameFiles client got.1 (H.close f got.2) closed) closed

    forward_on-SameFiles :
        (client : ℕ) (node : NodeInfo) (msg : Text) (w' : H.World)
        → Opened f w w'
        → SameFiles w (forward_on H client node msg (some f, w')).1
    unfolding forward_on
    forward_on-SameFiles client node msg w' (fresh, others) =
        let w1 = H.set_nonblocking f w' in
        let set : Opened f w w1 =
          (fresh, λ fd other. O.nonblocking_same w' f fd ∙ others fd other) in
        let tried = connect_with_retry H 5 f node.host node.port w1 in
        let done = connect-Opened 5 node.host node.port w1 set in
        if_both (λ (r : ErrorCode × H.World). SameFiles w r.1) (not (H.is_address node.host)) _ _
          (close-SameFiles f w w1 set)
          (if_both (λ (r : ErrorCode × H.World). SameFiles w r.1) (not tried.0) _ _
            (close-SameFiles f w tried.1 done) (relay-SameFiles client msg tried.1 done))

  -- Whatever happens, forwardToNode leaves the same descriptors open as it found: the socket that it
  -- opens is closed on every path, and no other is.
  pub forward_to_node-SameFiles :
      (client : ℕ) (node : NodeInfo) (msg : Text) (w : H.World)
      → SameFiles w (forward_to_node H client node msg w).1
  unfolding forward_to_node forward_on
  forward_to_node-SameFiles client node msg w = elim (Option-cases (H.open_socket w).0) [
    | inl failed ↦
        subst (λ o. SameFiles w (forward_on H client node msg (o, w1)).1) (sym failed)
          (λ fd. O.open_none w fd failed)
    | inr (f, opened) ↦
        subst (λ o. SameFiles w (forward_on H client node msg (o, w1)).1) (sym opened)
          (forward_on-SameFiles f w client node msg w1
            (O.open_fresh w f opened, λ fd other. O.open_other w f fd opened other))
  ]
    where
      w1 : H.World
      w1 = (H.open_socket w).1
