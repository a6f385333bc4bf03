-- ===== src/Pool/Closing.antt =====
-- closePeerConnections of raft/RaftConnectionPool.cpp.
use yolo_server.Prelude.{
  Bool, ℕ, ◌≡◌, refl, sym, ap, ◌∙◌, true, false, none, Text, List, [], ◌∷◌, if◌then◌else◌, text_eq,
  text_eq_refl, Bool-cases, inl, inr,
}
use yolo_server.Prelude.Assoc.{lookup, erase, lookup-erase, text_key, nat_key}
use yolo_server.Pool.Net.{Net, Descriptors}
use yolo_server.Pool.Connections.{
  or_empty, ConnectionInfo, RaftConnectionPool, queue_of, set_queue, forget, close_queue,
  close_peer_connections,
}
use yolo_server.Pool.Invariant.{
  IsSound, close-IsSound, set_queue-IsSound, forget-IsSound, queue_of-set_queue, queue_of-forget,
}
use yolo_server.Pool.Getting.{dequeue}

-- The queues of a pool once the one of a peer is set twice.
pub set_queue_twice :
    (peer other : Text) (q r : List ConnectionInfo) (p : RaftConnectionPool)
    → queue_of other (set_queue peer q (set_queue peer r p)) ≡ queue_of other (set_queue peer q p)
set_queue_twice peer other q r p = elim (Bool-cases (text_eq peer other)) [
  | inl same ↦
      rw
        (
          queue_of-set_queue peer other q (set_queue peer r p),
          queue_of-set_queue peer other q p,
          same,
        )
        refl
  | inr differs ↦
      rw
        (
          queue_of-set_queue peer other q (set_queue peer r p),
          queue_of-set_queue peer other q p,
          queue_of-set_queue peer other r p,
          differs,
        )
        refl
]

-- Erasing a queue leaves what emptying it leaves.
queue_of_erased :
    (peer other : Text) (p : RaftConnectionPool)
    → queue_of other (record p { connection_pools = erase peer p.connection_pools })
      ≡ queue_of other (set_queue peer [] p)
unfolding queue_of
queue_of_erased peer other p =
    ap or_empty (lookup-erase peer other p.connection_pools)
    ∙ or_empty-if (text_eq peer other)
    ∙ sym (queue_of-set_queue peer other [] p)
  where
    or_empty-if :
        (b : Bool)
        → or_empty (if b then none else lookup other p.connection_pools)
          ≡ (if b then [] else or_empty (lookup other p.connection_pools))
    or_empty-if true = refl
    or_empty-if false = refl

set_queue-forget :
    (peer other : Text) (fd : ℕ) (q r : List ConnectionInfo) (p : RaftConnectionPool)
    → queue_of other (set_queue peer q (forget fd p))
      ≡ queue_of other (forget fd (set_queue peer q (set_queue peer r p)))
set_queue-forget peer other fd q r p =
    queue_of-set_queue peer other q (forget fd p)
    ∙ ap (λ old. if text_eq peer other then q else old) (queue_of-forget fd other p)
    ∙ sym (queue_of-set_queue peer other q p)
    ∙ sym (set_queue_twice peer other q r p)
    ∙ sym (queue_of-forget fd other (set_queue peer q (set_queue peer r p)))

module _ {N : Net} (D : Descriptors N) where
  open D use {IsOpen}

  -- Only the queues and the descriptor map count.
  pub IsSound-same :
      (p p' : RaftConnectionPool) (w : N.World)
      → ((peer : Text) → queue_of peer p' ≡ queue_of peer p)
      → p'.fd_to_peer_map ≡ p.fd_to_peer_map
      → IsSound D p w
      → IsSound D p' w
  IsSound-same p p' w queues owners sound peer = rw (queues peer, owners) (sound peer)

  -- One round: the front of the queue is closed and forgotten.
  pub close_front :
      (peer : Text) (c : ConnectionInfo) (cs : List ConnectionInfo) (p : RaftConnectionPool)
      (w : N.World)
      → IsSound D (set_queue peer (c ∷ cs) p) w
      → IsSound D (set_queue peer cs (forget c.fd p)) (N.close c.fd w)
  unfolding set_queue forget
  close_front peer c cs p w sound =
      let full = set_queue peer (c ∷ cs) p in
      let (rest, free) = dequeue D peer c cs full w front sound in
      let shorter = set_queue peer cs full in
      IsSound-same (forget c.fd shorter) (set_queue peer cs (forget c.fd p)) (N.close c.fd w)
        (λ other. set_queue-forget peer other c.fd cs (c ∷ cs) p) refl
        (forget-IsSound D c.fd shorter (N.close c.fd w) free
          (close-IsSound D c.fd shorter w free rest))
    where
      front : queue_of peer (set_queue peer (c ∷ cs) p) ≡ c ∷ cs
      front =
          queue_of-set_queue peer peer (c ∷ cs) p
          ∙ ap (λ b. if b then c ∷ cs else queue_of peer p) (text_eq_refl peer)

  queue_of-close_queue :
      (q : List ConnectionInfo) (p : RaftConnectionPool) (w : N.World) (other : Text)
      → queue_of other (close_queue N q p w).0 ≡ queue_of other p
  unfolding close_queue
  queue_of-close_queue [] p w other = refl
  queue_of-close_queue (c ∷ cs) p w other =
      queue_of-close_queue cs (forget c.fd p) (N.close c.fd w) other ∙ queue_of-forget c.fd other p

  close_queue-IsSound :
      (peer : Text) (q : List ConnectionInfo) (p : RaftConnectionPool) (w : N.World)
      → IsSound D (set_queue peer q p) w
      → let r = close_queue N q p w in IsSound D (set_queue peer [] r.0) r.1
  unfolding close_queue
  close_queue-IsSound peer [] p w sound = sound
  close_queue-IsSound peer (c ∷ cs) p w sound =
      close_queue-IsSound peer cs (forget c.fd p) (N.close c.fd w) (close_front peer c cs p w sound)

  -- ClosePeerConnections on a good pool leaves a good pool, in which the peer has no queued
  -- connection and the other peers have those they had.
  pub close_peer_connections-IsSound :
      (peer : Text) (p : RaftConnectionPool) (w : N.World)
      → IsSound D p w
      → let r = close_peer_connections N peer p w in
        IsSound D r.0 r.1
        × ((other : Text)
            → queue_of other r.0 ≡ (if text_eq peer other then [] else queue_of other p))
  unfolding close_peer_connections set_queue
  close_peer_connections-IsSound peer p w sound =
      let q = queue_of peer p in
      let r = close_queue N q p w in
      (
        IsSound-same (set_queue peer [] r.0)
            (record r.0 { connection_pools = erase peer r.0.connection_pools }) r.1
            (λ other. queue_of_erased peer other r.0) refl
            (close_queue-IsSound peer q p w (set_queue-IsSound D peer q p w (sound peer) sound)),
        λ other.
            queue_of_erased peer other r.0
            ∙ queue_of-set_queue peer other [] r.0
            ∙ ap (λ old. if text_eq peer other then [] else old) (queue_of-close_queue q p w other),
      )
