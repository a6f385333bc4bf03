-- ===== src/Cluster/Checking.antt =====
-- What checkNodeHealth of cluster/ShardRouter.cpp makes of a peer that speaks server/Protocol.cpp.
use yolo_server.Prelude.{
  subst, Bool, ℕ, zero, suc, ◌≤◌, ◌≡◌, ◌⊎◌, inl, inr, refl, sym, ap, true, false, Option, none,
  some, Text, [], ◌∷◌, arith, ◌/◌, ◌%◌, if◌then◌else◌, length, take, codes, text_eq, Ensures,
}
use yolo_server.Server.Socket.{received}
use yolo_server.Server.Protocol.{htonl, overwrite}
use yolo_server.Server.Headers.{nonzero, frame}
use yolo_server.Cluster.Router.{NodeInfo}
use yolo_server.Cluster.Health.{
  Dialer, c_string, check_answer, ping, check_connected, check_opened, check_node_health, is_some,
}

-- The first byte of a message on the wire is 0.
frame_start :
    (k : ℕ) (msg : Text)
    → length msg ≤ 1048576
    → (take k (frame msg) ≡ []) ⊎ ((rest : Text) × (take k (frame msg) ≡ 0 ∷ rest))
unfolding htonl
frame_start zero msg h = inl refl
frame_start (suc k) msg h =
    let first : length msg / 16777216 % 256 ≡ 0 = omega arith in
    inr (
      _,
      ap
          (λ b.
            b ∷ take k (length msg / 65536 % 256 ∷ length msg / 256 % 256 ∷ length msg % 256 ∷ msg))
          first,
    )

module _ (D : Dialer) where
  open D use {recv_some}
  open D.socket use {World}

  -- What a peer sends is a prefix of one message of at most 1 MB.
  abbrev pub IsFramed : Type 0
  IsFramed =
      (w : World) (fd : ℕ)
      → (msg : Text) × (k : ℕ) × (length msg ≤ 1048576)
        × (received (recv_some w fd 16).0 ≡ take k (frame msg))

  abbrev Fails : Option (Bool × World) → Type 0
  Fails r = Ensures (λ x. x.0 ≡ false) r

  check_answer-Fails :
      (fd : ℕ) (r : Option Text) (w : World)
      → (received r ≡ []) ⊎ ((rest : Text) × (received r ≡ 0 ∷ rest))
      → Fails (check_answer D fd r w)
  unfolding check_answer c_string overwrite text_eq
  check_answer-Fails fd r w (inl ended) = rw ended refl
  check_answer-Fails fd r w (inr (rest, e)) = rw (e, nonzero (length (0 ∷ rest)) (omega arith)) refl

  Fails-if :
      (b : Bool) (x y : Option (Bool × World)) → Fails x → Fails y → Fails (if b then x else y)
  Fails-if true x y hx hy = hx
  Fails-if false x y hx hy = hy

  answer_start :
      IsFramed
      → (w : World) (fd : ℕ)
      → let bytes = received (recv_some w fd 16).0 in
        (bytes ≡ []) ⊎ ((rest : Text) × (bytes ≡ 0 ∷ rest))
  answer_start framed w fd =
      let (msg, k, small, e) = framed w fd in
      subst (λ bytes. (bytes ≡ []) ⊎ ((rest : Text) × (bytes ≡ 0 ∷ rest))) (sym e)
        (frame_start k msg small)

  ping-Fails : IsFramed → (fd : ℕ) (w : World) → Fails (ping D fd w)
  unfolding ping
  ping-Fails framed fd w =
      let w1 = (D.socket.send w fd (codes "PING")).1 in
      Fails-if (is_some (D.socket.send w fd (codes "PING")).0) _ _
        (check_answer-Fails fd (recv_some w1 fd 16).0 (recv_some w1 fd 16).1
          (answer_start framed w1 fd))
        refl

  check_connected-Fails :
      IsFramed → (node : NodeInfo) (fd : ℕ) (w : World) → Fails (check_connected D node fd w)
  unfolding check_connected
  check_connected-Fails framed node fd w =
      let r = D.connect (D.set_timeouts w fd) fd node.host node.port in
      Fails-if (D.is_address node.host) _ _ (Fails-if r.0 _ _ (ping-Fails framed fd r.1) refl) refl

  check_opened-Fails :
      IsFramed → (node : NodeInfo) (r : Option ℕ × World) → Fails (check_opened D node r)
  unfolding check_opened
  check_opened-Fails framed node (none, w) = refl
  check_opened-Fails framed node (some fd, w) = check_connected-Fails framed node fd w

  -- If what a peer answers is framed as Protocol.cpp frames it, checkNodeHealth ends with false.
  pub check_node_health-framed :
      IsFramed
      → (node : NodeInfo) (w : World) → Ensures (λ r. r.0 ≡ false) (check_node_health D node w)
  unfolding check_node_health
  check_node_health-framed framed node w = check_opened-Fails framed node (D.open_socket w)
