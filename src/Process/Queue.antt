-- ===== src/Process/Queue.antt =====
-- The clients of acceptLoop in server/Server.cpp, from accept to the thread pool.
use yolo_server.Prelude.{
  Option-cases, ℕ, zero, suc, ◌<◌, ◌≤◌, ◌≡◌, refl, sym, ap, ◌∙◌, Bool, true, false, not, Option,
  none, some, List, [], ◌∷◌, ◌++◌, append_assoc, append-nil, length, arith, if_both, if◌then◌else◌,
  inl, inr,
}
use yolo_server.Host.{Host}
use yolo_server.Process.Listener.{Listener, Wait, timed_out, interrupted, wait_failed, ready}
use yolo_server.Process.Lifecycle.{Server, at_world}
use yolo_server.Process.Accepting.{
  accept_all, admit_client, is_listener, handle_events, on_wait, accept_loop,
}

-- The clients that accept has returned so far, in order. Only an accept that succeeds adds one; clients
-- may come, or be dropped by the system, at any time.
pub record HasAccepted {H : Host} (L : Listener H) : Type 0 where
  pub accepted : H.World → List ℕ
  pub accept_some :
      (fd : Option ℕ) (w : H.World) (c : ℕ)
      → (L.accept fd w).0 ≡ some c
      → accepted (L.accept fd w).1 ≡ accepted w ++ c ∷ []
  pub accept_none :
      (fd : Option ℕ) (w : H.World)
      → (L.accept fd w).0 ≡ none
      → accepted (L.accept fd w).1 ≡ accepted w
  pub nonblocking_same : (fd : ℕ) (w : H.World) → accepted (H.set_nonblocking fd w) ≡ accepted w
  pub epoll_same : (fd : Option ℕ) (w : H.World) → accepted (L.epoll_wait fd w).1 ≡ accepted w

-- At most `left` more clients can be accepted, whenever they come.
pub record AreFinite {H : Host} (L : Listener H) : Type 0 where
  pub left : H.World → ℕ
  pub accept_left :
      (fd : Option ℕ) (w : H.World) (c : ℕ)
      → (L.accept fd w).0 ≡ some c
      → left (L.accept fd w).1 < left w
  pub nonblocking_left : (fd : ℕ) (w : H.World) → left (H.set_nonblocking fd w) ≤ left w

-- What the rounds of the inner loop make of the server.
module _ {H : Host} (L : Listener H) where
  accept_all-some :
      (fuel : ℕ) (s : Server H) (c : ℕ)
      → (L.accept s.listen_fd s.world).0 ≡ some c
      → accept_all L (suc fuel) s
        ≡ accept_all L fuel (admit_client L c (L.accept s.listen_fd s.world).1 s)
  unfolding accept_all
  accept_all-some fuel s c e = rw (e, accept_all) refl

  accept_all-none :
      (fuel : ℕ) (s : Server H)
      → (L.accept s.listen_fd s.world).0 ≡ none
      → accept_all L (suc fuel) s ≡ (true, at_world s (L.accept s.listen_fd s.world).1)
  unfolding accept_all
  accept_all-none fuel s e = rw (e, accept_all) refl

module _ {H : Host} (L : Listener H) (Q : HasAccepted L) where
  open Q use {accepted}

  -- The loop has ended with a failed accept; the clients that were accepted are submitted.
  pub record Ended (bound : ℕ) (s s' : Server H) : Type 0 where
    pub new : List ℕ
    pub taken : accepted s'.world ≡ accepted s.world ++ new
    pub submitted : s'.submitted ≡ s.submitted ++ new
    pub few : length new ≤ bound
    pub before : H.World
    pub failed : (L.accept s.listen_fd before).0 ≡ none
    pub last : s'.world ≡ (L.accept s.listen_fd before).1
    pub same_listener : s'.listen_fd ≡ s.listen_fd
    pub same_running : s'.running ≡ s.running

  -- If no more than a number of clients can be accepted, those that come while the loop runs included,
  -- the inner loop of acceptLoop ends after at most one call of accept more than that, at the first
  -- call that fails; exactly the clients that the calls returned are submitted to the thread pool,
  -- each once and in order.
  pub accept_all-Ended :
      (F : AreFinite L) (fuel : ℕ) (s : Server H)
      → F.left s.world < fuel
      → let (done, s') = accept_all L fuel s in (done ≡ true) × Ended (F.left s.world) s s'
  accept_all-Ended F zero s more = absurd (omega arith)
  accept_all-Ended F (suc fuel) s more =
      let w1 = (L.accept s.listen_fd s.world).1 in
      elim (Option-cases (L.accept s.listen_fd s.world).0) [
        | inl e ↦ rw (accept_all-none L fuel s e) (
          refl,
          record {
            new = [];
            taken = Q.accept_none s.listen_fd s.world e ∙ sym (append-nil (accepted s.world));
            submitted = sym (append-nil s.submitted);
            few = omega arith;
            before = s.world;
            failed = e;
            last = refl;
            same_listener = refl;
            same_running = refl;
          },
        )
        | inr (c, e) ↦
            let s1 = admit_client L c w1 s in
            let fewer = F.accept_left s.listen_fd s.world c e in
            let same = F.nonblocking_left c w1 in
            let (done, rest) = accept_all-Ended F fuel s1 (omega (arith, fewer, same, more)) in
            rw (accept_all-some L fuel s c e) (
              done,
              record {
                new = c ∷ rest.new;
                taken =
                    rest.taken
                    ∙ ap (λ xs. xs ++ rest.new)
                        (Q.nonblocking_same c w1 ∙ Q.accept_some s.listen_fd s.world c e)
                    ∙ append_assoc (accepted s.world) (c ∷ []) rest.new;
                submitted = rest.submitted ∙ append_assoc s.submitted (c ∷ []) rest.new;
                few = omega (arith, rest.few, fewer, same);
                before = rest.before;
                failed = rest.failed;
                last = rest.last;
                same_listener = rest.same_listener;
                same_running = rest.same_running;
              },
            )
      ]

  -- The clients that were submitted are all that accept has returned, in order.
  abbrev pub AllServed : Server H → Type 0
  AllServed s = s.submitted ≡ accepted s.world

  accept_all-AllServed : (fuel : ℕ) (s : Server H) → AllServed s → AllServed (accept_all L fuel s).1
  unfolding accept_all
  accept_all-AllServed zero s served = served
  accept_all-AllServed (suc fuel) s served =
      let w1 = (L.accept s.listen_fd s.world).1 in
      elim (Option-cases (L.accept s.listen_fd s.world).0) [
        | inl e ↦
            rw (accept_all-none L fuel s e) (served ∙ sym (Q.accept_none s.listen_fd s.world e))
        | inr (c, e) ↦ rw (accept_all-some L fuel s c e) (
            accept_all-AllServed fuel (admit_client L c w1 s) (
              ap (λ xs. xs ++ c ∷ []) served
              ∙ sym (Q.nonblocking_same c w1 ∙ Q.accept_some s.listen_fd s.world c e)))
      ]

  abbrev Served : Bool × Server H → Type 0
  Served r = AllServed r.1

  handle_events-AllServed :
      (fuel : ℕ) (fds : List ℕ) (s : Server H)
      → AllServed s
      → AllServed (handle_events L fuel fds s).1
  unfolding handle_events
  handle_events-AllServed fuel [] s served = served
  handle_events-AllServed fuel (fd ∷ fds) s served =
      let r = if is_listener L fd s.listen_fd then accept_all L fuel s else (true, s) in
      let first : AllServed r.1 =
        if_both Served (is_listener L fd s.listen_fd) (accept_all L fuel s) (true, s)
          (accept_all-AllServed fuel s served) served in
      if_both Served r.0 (handle_events L fuel fds r.1) (false, r.1)
        (handle_events-AllServed fuel fds r.1 first) first

  on_wait-AllServed :
      (fuel : ℕ) (again : Server H → Bool × Server H) (r : Wait) (s : Server H)
      → ((t : Server H) → AllServed t → AllServed (again t).1)
      → AllServed s
      → AllServed (on_wait L fuel again r s).1
  unfolding on_wait
  on_wait-AllServed fuel again timed_out s keeps served = keeps s served
  on_wait-AllServed fuel again interrupted s keeps served = keeps s served
  on_wait-AllServed fuel again wait_failed s keeps served = served
  on_wait-AllServed fuel again (ready fds) s keeps served =
      let r = handle_events L fuel fds s in
      let handled = handle_events-AllServed fuel fds s served in
      if_both Served r.0 (again r.1) (false, r.1) (keeps r.1 handled) handled

  -- However long acceptLoop runs, whatever epoll_wait reports, whichever accept fails and whenever
  -- clients come: if the clients that were submitted to the thread pool were all that accept had
  -- returned, in order, at the start, they are at the end: no client that was accepted is lost,
  -- submitted twice or passed by another.
  pub accept_loop-AllServed :
      (clients rounds : ℕ) (s : Server H)
      → AllServed s
      → AllServed (accept_loop L clients rounds s).1
  unfolding accept_loop
  accept_loop-AllServed clients zero s served = served
  accept_loop-AllServed clients (suc rounds) s served =
      let (r, w) = L.epoll_wait s.epoll_fd s.world in
      let waited : AllServed (at_world s w) = served ∙ sym (Q.epoll_same s.epoll_fd s.world) in
      if_both Served (not s.running) (true, s) _ served
        (on_wait-AllServed clients (accept_loop L clients rounds) r (at_world s w)
          (accept_loop-AllServed clients rounds) waited)
