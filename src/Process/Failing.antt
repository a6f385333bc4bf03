-- ===== src/Process/Failing.antt =====
-- start of server/Server.cpp, when setupSocket fails.
use mathlib.Core.Bool.{true≢false}
use yolo_server.Prelude.{
  ℕ, ℤ, ◌≡◌, sym, refl, ◌∙◌, ap, subst, Bool, true, false, not, some, ◌==◌, ==_iff, Bool-cases,
  Option-cases, inl, inr, if_both,
}
use yolo_server.Prelude.Exec.{returns}
use yolo_server.Host.{Host}
use yolo_server.Connection.Closing.{OpenFiles}
use yolo_server.Process.Listener.{Listener}
use yolo_server.Process.Lifecycle.{
  Server, stop_server, destroy_server, watch, open_port, with_socket, setup_socket,
}
use yolo_server.Process.Accepting.{after_setup, start_server}

-- A descriptor that socket returns is open; epoll_create1 returns one that was not; no call of
-- setupSocket but close ends an open one.
pub record LeavesOpen {H : Host} (O : OpenFiles H) (L : Listener H) : Type 0 where
  pub socket_open :
      (w : H.World) (f : ℕ) → (H.open_socket w).0 ≡ some f → O.is_open (H.open_socket w).1 f ≡ true
  pub reuse_same : (w : H.World) (f fd : ℕ) → O.is_open (L.reuse_address f w) fd ≡ O.is_open w fd
  pub bind_same :
      (w : H.World) (f : ℕ) (port : ℤ) (fd : ℕ) → O.is_open (L.bind f port w).1 fd ≡ O.is_open w fd
  pub listen_same : (w : H.World) (f fd : ℕ) → O.is_open (L.listen f w).1 fd ≡ O.is_open w fd
  pub epoll_fresh : (w : H.World) (e : ℕ) → (L.epoll_create w).0 ≡ some e → O.is_open w e ≡ false
  pub epoll_open :
      (w : H.World) (fd : ℕ) → O.is_open w fd ≡ true → O.is_open (L.epoll_create w).1 fd ≡ true
  pub add_same : (w : H.World) (e f fd : ℕ) → O.is_open (L.epoll_add e f w).1 fd ≡ O.is_open w fd

module _ {H : Host} (O : OpenFiles H) (L : Listener H) (G : LeavesOpen O L) where
  open O use {is_open}

  -- The descriptor is open, and the flag and the member are as before.
  abbrev StillOpen : ℕ → Server H → Bool × Server H → Type 0
  StillOpen fd s (done, t) =
      (is_open t.world fd ≡ true) × (t.running ≡ s.running) × (t.listen_fd ≡ s.listen_fd)

  watch-StillOpen :
      (fd : ℕ) (w : H.World) (s : Server H)
      → is_open w fd ≡ true
      → StillOpen fd s (watch L fd (L.epoll_create w) s)
  unfolding watch
  watch-StillOpen fd w s is = elim (Option-cases (L.epoll_create w).0) [
    | inl failed ↦
        subst (λ o. StillOpen fd s (watch L fd (o, w1) s)) (sym failed)
          (G.epoll_open w fd is, refl, refl)
    | inr (e, created) ↦
        let added = G.add_same w1 e fd fd ∙ G.epoll_open w fd is in
        subst (λ o. StillOpen fd s (watch L fd (o, w1) s)) (sym created)
          (if_both (StillOpen fd s) (L.epoll_add e fd w1).0 _ _ (added, refl, refl)
            (O.close_other (L.epoll_add e fd w1).1 e fd (apart e created) ∙ added, refl, refl))
  ]
    where
      w1 : H.World
      w1 = (L.epoll_create w).1

      apart : (e : ℕ) → (L.epoll_create w).0 ≡ some e → (e == fd) ≡ false
      apart e created = elim (Bool-cases (e == fd)) [
        | inl same ↦ absurd (
            true≢false
              (sym is ∙ sym (ap (is_open w) ((==_iff e fd).0 same)) ∙ G.epoll_fresh w e created))
        | inr other ↦ other
      ]

  open_port-StillOpen :
      (fd : ℕ) (s : Server H) → is_open s.world fd ≡ true → StillOpen fd s (open_port L fd s)
  unfolding open_port
  open_port-StillOpen fd s is =
      let w0 = L.reuse_address fd (H.set_nonblocking fd s.world) in
      let (bound, w1) = L.bind fd s.port w0 in
      let (listens, w2) = L.listen fd w1 in
      let is1 : is_open w1 fd ≡ true =
        G.bind_same w0 fd s.port fd
        ∙ G.reuse_same (H.set_nonblocking fd s.world) fd fd
        ∙ O.nonblocking_same s.world fd fd
        ∙ is in
      let is2 : is_open w2 fd ≡ true = G.listen_same w1 fd fd ∙ is1 in
      if_both (StillOpen fd s) (not bound) _ _ (is1, refl, refl)
        (if_both (StillOpen fd s) (not listens) _ _ (is2, refl, refl) (watch-StillOpen fd w2 s is2))

  setup_socket-StillOpen :
      (s : Server H) (fd : ℕ)
      → (H.open_socket s.world).0 ≡ some fd
      → let (done, t) = setup_socket L s in
        (is_open t.world fd ≡ true) × (t.running ≡ s.running) × (t.listen_fd ≡ some fd)
  unfolding setup_socket with_socket
  setup_socket-StillOpen s fd opened =
      let w = (H.open_socket s.world).1 in
      let s1 = record s { listen_fd = some fd; world = w } in
      subst (λ o. StillOpen fd s1 (with_socket L (o, w) s)) (sym opened)
        (open_port-StillOpen fd s1 (G.socket_open s.world fd opened))

  stopped_does_nothing : (s : Server H) → s.running ≡ false → destroy_server (stop_server s) ≡ s
  unfolding destroy_server stop_server
  stopped_does_nothing s off = rw off refl

  -- If socket gives a descriptor and setupSocket fails afterwards, in bind, in listen, in
  -- epoll_create1 or in epoll_ctl, start of a server that does not run returns false with this
  -- descriptor open, and it is open still when stop and the destructor have run: they do nothing on
  -- a server that is not running.
  pub failed_start_leaks :
      (s : Server H) (clients rounds fd : ℕ)
      → s.running ≡ false
      → (H.open_socket s.world).0 ≡ some fd
      → (setup_socket L s).0 ≡ false
      → let (result, s') = start_server L clients rounds s in
        (result ≡ returns (some false))
        × (s'.listen_fd ≡ some fd)
        × (is_open s'.world fd ≡ true)
        × (is_open (destroy_server (stop_server s')).world fd ≡ true)
  unfolding start_server after_setup
  failed_start_leaks s clients rounds fd idle opened fails =
      let t = (setup_socket L s).1 in
      let (is, flag, member) = setup_socket-StillOpen s fd opened in
      rw fails
        (refl, member, is, ap (λ u. is_open u.world fd) (stopped_does_nothing t (flag ∙ idle)) ∙ is)
