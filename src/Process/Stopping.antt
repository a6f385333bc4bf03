-- ===== src/Process/Stopping.antt =====
-- stop of server/Server.cpp, of a server that runs.
use mathlib.Core.Option.{none-ne-some, some-injective}
use yolo_server.Prelude.{
  ℕ, ◌≡◌, refl, sym, ap, ◌∙◌, subst, true, false, Option, none, some, ◌==◌, ==_iff, Bool-cases, inl,
  inr,
}
use yolo_server.Host.{Host, host_net}
use yolo_server.Raft.Types.{RaftNode}
use yolo_server.Connection.Closing.{OpenFiles}
use yolo_server.Process.RaftLife.{stop_raft}
use yolo_server.Process.Lifecycle.{Server, stop_node, close_if, close_own, stop_server}

-- The node is not running any more.
abbrev pub IsIdle : Option RaftNode → Type 0
IsIdle none = Unit
IsIdle (some n) = n.running ≡ false

module _ {H : Host} where
  stop_raft-idle :
      (n : RaftNode) (s : Server H) → (stop_raft (host_net H) n s.pool s.world).0.running ≡ false
  unfolding stop_raft
  stop_raft-idle n s = elim (Bool-cases n.running) [
    | inl runs ↦ rw (runs, stop_raft) refl
    | inr stopped ↦ rw (stopped, stop_raft) refl
  ]

  stop_node-IsIdle :
      (o : Option RaftNode) (s : Server H) → s.raft_node ≡ o → IsIdle (stop_node o s).raft_node
  unfolding stop_node
  stop_node-IsIdle none s e = subst IsIdle (sym e) tt
  stop_node-IsIdle (some n) s e = stop_raft-idle n s

  stop_node_keeps :
      (o : Option RaftNode) (s : Server H)
      → let t = stop_node o s in
        (t.running ≡ s.running)
        × (t.listen_fd ≡ s.listen_fd)
        × (t.epoll_fd ≡ s.epoll_fd)
        × (t.submitted ≡ s.submitted)
  unfolding stop_node
  stop_node_keeps none s = (refl, refl, refl, refl)
  stop_node_keeps (some n) s = (refl, refl, refl, refl)

module _ {H : Host} (O : OpenFiles H) where
  open O use {is_open}

  -- Nothing of the server goes on: the flag is off, the node idle, and its two descriptors are closed
  -- and forgotten.
  pub record IsStopped (s s' : Server H) : Type 0 where
    pub stopped : s'.running ≡ false
    pub idle : IsIdle s'.raft_node
    pub no_listener : s'.listen_fd ≡ none
    pub no_epoll : s'.epoll_fd ≡ none
    pub same_tasks : s'.submitted ≡ s.submitted
    pub listener_closed : (fd : ℕ) → s.listen_fd ≡ some fd → is_open s'.world fd ≡ false
    pub epoll_closed : (fd : ℕ) → s.epoll_fd ≡ some fd → is_open s'.world fd ≡ false

  close_if-closed :
      (o : Option ℕ) (s : Server H) (fd : ℕ) → o ≡ some fd → is_open (close_if o s).world fd ≡ false
  close_if-closed none s fd e = absurd (none-ne-some fd e)
  close_if-closed (some f) s fd e =
      subst (λ d. is_open (H.close f s.world) d ≡ false) (some-injective f fd e)
        (O.close_this s.world f)

  close_if_stays :
      (o : Option ℕ) (s : Server H) (fd : ℕ)
      → is_open s.world fd ≡ false
      → is_open (close_if o s).world fd ≡ false
  close_if_stays none s fd h = h
  close_if_stays (some f) s fd h = elim (Bool-cases (f == fd)) [
    | inl same ↦ close_if-closed (some f) s fd (ap some ((==_iff f fd).0 same))
    | inr other ↦ O.close_other s.world f fd other ∙ h
  ]

  close_if_same :
      (o : Option ℕ) (s : Server H)
      → let t = close_if o s in
        (t.running ≡ s.running)
        × (t.listen_fd ≡ s.listen_fd)
        × (t.raft_node ≡ s.raft_node)
        × (t.submitted ≡ s.submitted)
  close_if_same none s = (refl, refl, refl, refl)
  close_if_same (some fd) s = (refl, refl, refl, refl)

  -- stop of a server that runs leaves it with the flag off and the node idle, with its two descriptors
  -- closed and forgotten, and the tasks as they were.
  pub stop_server-IsStopped : (s : Server H) → s.running ≡ true → IsStopped s (stop_server s)
  unfolding stop_server close_own
  stop_server-IsStopped s runs =
      let s1 = stop_node s.raft_node (record s { running = false }) in
      let (off, listener, epoll, tasks) =
        stop_node_keeps s.raft_node (record s { running = false }) in
      let s2 = record (close_if s1.epoll_fd s1) { epoll_fd = none } in
      let (off2, listener2, node2, tasks2) = close_if_same s1.epoll_fd s1 in
      let (off3, listener3, node3, tasks3) = close_if_same s2.listen_fd s2 in
      rw (runs, stop_server)
        (record {
          stopped = off3 ∙ off2 ∙ off;
          idle =
              subst IsIdle (sym (node3 ∙ node2))
                (stop_node-IsIdle s.raft_node (record s { running = false }) refl);
          no_listener = refl;
          no_epoll = epoll_kept s2.listen_fd s2 refl;
          same_tasks = tasks3 ∙ tasks2 ∙ tasks;
          listener_closed = λ fd e. close_if-closed s2.listen_fd s2 fd (listener2 ∙ listener ∙ e);
          epoll_closed = λ fd e.
              close_if_stays s2.listen_fd s2 fd (close_if-closed s1.epoll_fd s1 fd (epoll ∙ e));
        })
    where
      epoll_kept :
          (o : Option ℕ) (t : Server H) → t.epoll_fd ≡ none → (close_if o t).epoll_fd ≡ none
      epoll_kept none t h = h
      epoll_kept (some fd) t h = h
