-- ===== src/Pool/Getting.antt =====
-- getConnection of raft/RaftConnectionPool.cpp.
use yolo_server.Prelude.{
  if_both, ℕ, zero, suc, ℤ, Bool, ◌≡◌, ◌≢◌, refl, sym, ap, ◌∙◌, not, none, some, Option, Text, List,
  [], ◌∷◌, arith, All, All-map, text_eq, text_eq_iff, Bool-cases, inl, inr, subst,
}
use mathlib.Core.Bool.{false≢true}
use mathlib.Core.Option.{some-injective}
use yolo_server.Prelude.Assoc.{lookup, text_key, nat_key}
use yolo_server.Pool.Net.{Net, Descriptors}
use yolo_server.Pool.Connections.{
  ConnectionInfo, RaftConnectionPool, queue_of, set_queue, forget, is_valid, connect_loop,
  connect_opened, on_socket, create_connection, track, get_new, get_from, get_connection,
}
use yolo_server.Pool.Invariant.{
  NotQueued, IsTracked, IsGood, IsSound, IsGood-map, IsSound-keeps, set_queue-IsSound,
  close-IsSound, forget-IsSound, queue_of-set_queue, lookup-insert_other, lookup_inserted,
}

module _ {N : Net} (D : Descriptors N) where
  open D use {IsOpen}

  -- From one world to another every open descriptor stays open.
  abbrev pub Keeps : N.World → N.World → Type 0
  Keeps w w' = (fd : ℕ) → IsOpen w fd → IsOpen w' fd

  connect_loop-Keeps :
      (n fd : ℕ) (host : Text) (port : ℤ) (w : N.World)
      → Keeps w (connect_loop N n fd host port w).1
  unfolding connect_loop
  connect_loop-Keeps zero fd host port w f open_f = open_f
  connect_loop-Keeps (suc n) fd host port w f open_f =
      let connected = D.connect_keeps fd host port w f open_f in
      let w1 = (N.connect fd host port w).1 in
      if_both (λ (r : Bool × N.World). IsOpen r.1 f) (N.connect fd host port w).0 _ _ connected
        (connect_loop-Keeps n fd host port (N.sleep_ms 100 w1) f (D.sleep_keeps 100 w1 f connected))

  -- What createConnection returns: no descriptor, or one that was not open and now is.
  abbrev pub Created : N.World → Option ℕ × N.World → Type 0
  Created w (none, w') = Keeps w w'
  Created w (some fd, w') = Keeps w w' × (IsOpen w fd → ⊥) × IsOpen w' fd

  connect_opened-Created :
      (fd : ℕ) (host : Text) (port : ℤ) (w w1 : N.World)
      → Keeps w w1
      → (IsOpen w fd → ⊥)
      → IsOpen w1 fd
      → Created w (connect_opened N fd host port w1)
  unfolding connect_opened
  connect_opened-Created fd host port w w1 keeps fresh opened =
      if_both (Created w) (not (N.is_address host)) _ _ (closing w2 ready) (
        if_both (Created w) (not (connect_loop N 3 fd host port w2).0) _ _ (closing w3 connected)
          (connected, fresh, loop fd (D.nonblocking_keeps fd w1 fd opened)))
    where
      w2 : N.World
      w2 = N.set_nonblocking fd w1

      w3 : N.World
      w3 = (connect_loop N 3 fd host port w2).1

      ready : Keeps w w2
      ready f h = D.nonblocking_keeps fd w1 f (keeps f h)

      loop : Keeps w2 w3
      loop = connect_loop-Keeps 3 fd host port w2

      connected : Keeps w w3
      connected f h = loop f (ready f h)

      closing : (v : N.World) → Keeps w v → Keeps w (N.close fd v)
      closing v k f h = D.close_keeps fd v f (λ e. fresh (subst (IsOpen w) e h)) (k f h)

  on_socket-Created :
      (host : Text) (port : ℤ) (w : N.World) (r : Option ℕ × N.World)
      → Created w r
      → Created w (on_socket N host port r)
  unfolding on_socket
  on_socket-Created host port w (none, w1) made = made
  on_socket-Created host port w (some fd, w1) made =
      connect_opened-Created fd host port w w1 made.0 made.1 made.2

  open_socket-Created : (w : N.World) → Created w (N.open_socket w)
  open_socket-Created w =
      opened (N.open_socket w).0 (D.open_keeps w) (λ fd. D.open_new w fd) (λ fd. D.open_opens w fd)
    where
      opened :
          (r : Option ℕ)
          → Keeps w (N.open_socket w).1
          → ((fd : ℕ) → r ≡ some fd → IsOpen w fd → ⊥)
          → ((fd : ℕ) → r ≡ some fd → IsOpen (N.open_socket w).1 fd)
          → Created w (r, (N.open_socket w).1)
      opened none keeps fresh opens = keeps
      opened (some fd) keeps fresh opens = (keeps, fresh fd refl, opens fd refl)

  create_connection-Created :
      (host : Text) (port : ℤ) (w : N.World) → Created w (create_connection N host port w)
  unfolding create_connection
  create_connection-Created host port w =
      on_socket-Created host port w (N.open_socket w) (open_socket-Created w)

  -- What getConnection returns: a good pool, and either no descriptor or an open one that is tracked
  -- for the peer and in no queue.
  abbrev pub Got : Text → Option ℕ × RaftConnectionPool × N.World → Type 0
  Got peer (none, p, w) = IsSound D p w
  Got peer (some fd, p, w) =
      IsSound D p w × (lookup fd p.fd_to_peer_map ≡ some peer) × IsOpen w fd × NotQueued fd p

  track-Got :
      (peer : Text) (p : RaftConnectionPool) (w : N.World) (r : Option ℕ × N.World)
      → IsSound D p w
      → Created w r
      → Got peer (track N peer p r)
  unfolding track queue_of
  track-Got peer p w (none, w1) sound keeps = IsSound-keeps D p w w1 keeps sound
  track-Got peer p w (some fd, w1) sound made = (
    λ other.
        IsGood-map D
          (λ c t. (
            lookup-insert_other fd c.fd peer p.fd_to_peer_map (apart c.fd t.1) ∙ t.0,
            D.now_keeps w1 c.fd (made.0 c.fd t.1),
          ))
          (sound other),
    lookup_inserted fd peer p.fd_to_peer_map,
    D.now_keeps w1 fd made.2,
    λ other. All-map (λ c t. apart c.fd t.1) (queue_of other p) (sound other).tracked,
  )
    where
      apart : (f : ℕ) → IsOpen w f → f ≢ fd
      apart f h e = made.1 (subst (IsOpen w) e h)

  get_new-Got :
      (peer host : Text) (port : ℤ) (p : RaftConnectionPool) (w : N.World)
      → IsSound D p w
      → Got peer (get_new N peer host port p w)
  unfolding get_new
  get_new-Got peer host port p w sound =
      track-Got peer p w (create_connection N host port w) sound
        (create_connection-Created host port w)

  -- The front of a queue, taken out of it.
  pub dequeue :
      (peer : Text) (c : ConnectionInfo) (cs : List ConnectionInfo) (p : RaftConnectionPool)
      (w : N.World)
      → queue_of peer p ≡ c ∷ cs
      → IsSound D p w
      → IsSound D (set_queue peer cs p) w × NotQueued c.fd (set_queue peer cs p)
  dequeue peer c cs p w front sound = (
    set_queue-IsSound D peer cs p w
        (record {
          bounded = omega (arith, good.bounded);
          distinct = good.distinct.1;
          tracked = good.tracked.1;
        })
        sound,
    free,
  )
    where
      good : IsGood D peer p.fd_to_peer_map w (c ∷ cs)
      good = subst (IsGood D peer p.fd_to_peer_map w) front (sound peer)

      same_owner :
          (other : Text) (d : ConnectionInfo)
          → IsTracked D other p.fd_to_peer_map w d
          → d.fd ≡ c.fd
          → other ≡ peer
      same_owner other d t e =
          some-injective other peer
            (sym t.0 ∙ ap (λ f. lookup f p.fd_to_peer_map) e ∙ good.tracked.0.0)

      free : NotQueued c.fd (set_queue peer cs p)
      free other = elim (Bool-cases (text_eq peer other)) [
        | inl same ↦ rw (queue_of-set_queue peer other cs p, same) good.distinct.0
        | inr differs ↦
            rw (queue_of-set_queue peer other cs p, differs)
              (All-map
                (λ d t e.
                  false≢true
                    (sym differs ∙ (text_eq_iff peer other).1 (sym (same_owner other d t e))))
                (queue_of other p) (sound other).tracked)
      ]

  front-IsTracked :
      (peer : Text) (c : ConnectionInfo) (cs : List ConnectionInfo) (p : RaftConnectionPool)
      (w : N.World)
      → queue_of peer p ≡ c ∷ cs
      → IsSound D p w
      → IsTracked D peer p.fd_to_peer_map w c
  front-IsTracked peer c cs p w front sound =
      (subst (All (IsTracked D peer p.fd_to_peer_map w)) front (sound peer).tracked).0

  get_from-Got :
      (peer host : Text) (port : ℤ) (q : List ConnectionInfo) (p : RaftConnectionPool) (w : N.World)
      → queue_of peer p ≡ q
      → IsSound D p w
      → Got peer (get_from N peer host port q p w)
  unfolding get_from set_queue
  get_from-Got peer host port [] p w front sound = get_new-Got peer host port p w sound
  get_from-Got peer host port (c ∷ cs) p w front sound =
      let (kept, free) = dequeue peer c cs p w front sound in
      let p1 = set_queue peer cs p in
      let w1 = (N.peek c.fd w).1 in
      let kept1 = IsSound-keeps D p1 w w1 (D.peek_keeps c.fd w) kept in
      if_both (Got peer) (is_valid (N.peek c.fd w).0) _ _
        (
          IsSound-keeps D p1 w1 (N.now w1).1 (D.now_keeps w1) kept1,
          (front-IsTracked peer c cs p w front sound).0,
          D.now_keeps w1 c.fd
              (D.peek_keeps c.fd w c.fd (front-IsTracked peer c cs p w front sound).1),
          free,
        )
        (get_new-Got peer host port (forget c.fd p1) (N.close c.fd w1)
          (forget-IsSound D c.fd p1 (N.close c.fd w1) free (close-IsSound D c.fd p1 w1 free kept1)))

  -- GetConnection on a good pool (every queue has at most five connections, of distinct descriptors
  -- that are open and tracked for its peer) leaves a good pool, and returns no descriptor or an
  -- open one that is tracked for the peer and waits in no queue.
  pub get_connection-Got :
      (peer host : Text) (port : ℤ) (p : RaftConnectionPool) (w : N.World)
      → IsSound D p w
      → Got peer (get_connection N peer host port p w)
  unfolding get_connection
  get_connection-Got peer host port p w sound =
      get_from-Got peer host port (queue_of peer p) p w refl sound
