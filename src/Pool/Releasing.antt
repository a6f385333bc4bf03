-- ===== src/Pool/Releasing.antt =====
-- releaseConnection of raft/RaftConnectionPool.cpp.
use mathlib.Core.Bool.{false≢true}
use yolo_server.Prelude.{
  ℕ, Bool, ◌<◌, ◌≡◌, ◌≢◌, ◌⊎◌, refl, sym, ap, true, false, not, none, some, Option, Text, List, [],
  ◌∷◌, ◌++◌, arith, length, length-append, ltb, All, All-append, if_cases, ltb→lt, text_eq,
  text_eq_iff, text_eq_refl, Bool-cases, inl, inr,
}
use yolo_server.Prelude.Assoc.{lookup, text_key, nat_key}
use yolo_server.Pool.Net.{Net, Descriptors}
use yolo_server.Pool.Connections.{
  ConnectionInfo, RaftConnectionPool, queue_of, set_queue, is_valid, owned_by, released, put_back,
  release_connection,
}
use yolo_server.Pool.Invariant.{
  IsDistinct, NotQueued, IsTracked, IsGood, IsSound, IsSound-keeps, set_queue-IsSound,
  close-IsSound, forget-IsSound, queue_of-set_queue, queue_of-forget,
}

append-IsDistinct :
    (q : List ConnectionInfo) (c : ConnectionInfo)
    → IsDistinct q
    → All (λ (d : ConnectionInfo). d.fd ≢ c.fd) q
    → IsDistinct (q ++ c ∷ [])
append-IsDistinct [] c distinct apart = (tt, tt)
append-IsDistinct (d ∷ q) c distinct apart = (
  All-append _ q (c ∷ []) distinct.0 (λ e. apart.0 (sym e), tt),
  append-IsDistinct q c distinct.1 apart.1,
)

not-false : (b : Bool) → not b ≡ false → b ≡ true
not-false b h = ground arith

owned_by-true : (o : Option Text) (peer : Text) → owned_by o peer ≡ true → o ≡ some peer
owned_by-true none peer h = absurd (false≢true h)
owned_by-true (some owner) peer h = ap some ((text_eq_iff owner peer).0 h)

-- A write of the queue that is there, or of a longer one, for a descriptor in no queue.
set_queue-NotQueued :
    (peer : Text) (fd : ℕ) (p : RaftConnectionPool)
    → NotQueued fd p
    → NotQueued fd (set_queue peer (queue_of peer p) p)
set_queue-NotQueued peer fd p free other = elim (Bool-cases (text_eq peer other)) [
  | inl same ↦ rw (queue_of-set_queue peer other (queue_of peer p) p, same) (free peer)
  | inr differs ↦ rw (queue_of-set_queue peer other (queue_of peer p) p, differs) (free other)
]

module _ {N : Net} (D : Descriptors N) where
  open D use {IsOpen}

  -- The connection is back at the end of the queue of its peer, or closed and in no queue.
  abbrev pub Released : Text → ℕ → RaftConnectionPool → RaftConnectionPool × N.World → Type 0
  Released peer fd p (p', w') =
      IsSound D p' w'
      × (((t : ℕ) × (queue_of peer p' ≡ queue_of peer p ++ released fd t ∷ []))
          ⊎ (NotQueued fd p' × ((w : N.World) × (w' ≡ N.close fd w))))

  put_back-Released :
      (peer : Text) (fd : ℕ) (p : RaftConnectionPool) (w : N.World)
      → NotQueued fd p
      → IsOpen w fd
      → lookup fd p.fd_to_peer_map ≡ some peer
      → IsSound D p w
      → Released peer fd p (put_back N peer fd p w)
  unfolding put_back
  put_back-Released peer fd p w free opened owner sound =
      elim (Bool-cases (ltb (length (queue_of peer p)) 5)) [
        | inl room ↦ rw room (
          IsSound-keeps D (set_queue peer longer p) w (N.now w).1 (D.now_keeps w)
              (set_queue-IsSound D peer longer p w (longer-IsGood (ltb→lt _ _ room)) sound),
          inl ((N.now w).0, rw (queue_of-set_queue peer peer longer p, text_eq_refl peer) refl),
        )
        | inr full ↦ rw full (
          forget-IsSound D fd same (N.close fd w) kept (
              close-IsSound D fd same w kept
                (set_queue-IsSound D peer (queue_of peer p) p w (sound peer) sound)),
          inr (λ other. rw (queue_of-forget fd other same) (kept other), (w, refl)),
        )
      ]
    where
      same : RaftConnectionPool
      same = set_queue peer (queue_of peer p) p

      longer : List ConnectionInfo
      longer = queue_of peer p ++ released fd (N.now w).0 ∷ []

      longer-IsGood : length (queue_of peer p) < 5 → IsGood D peer p.fd_to_peer_map w longer
      longer-IsGood room = record {
        bounded =
            omega (arith, length-append (queue_of peer p) (released fd (N.now w).0 ∷ []), room);
        distinct =
            append-IsDistinct (queue_of peer p) (released fd (N.now w).0) (sound peer).distinct
              (free peer);
        tracked =
            All-append (IsTracked D peer p.fd_to_peer_map w) (queue_of peer p)
              (released fd (N.now w).0 ∷ []) (sound peer).tracked ((owner, opened), tt);
      }

      kept : NotQueued fd same
      kept = set_queue-NotQueued peer fd p free

  -- ReleaseConnection of an open connection that is in no queue, on a good pool, leaves a good
  -- pool, and the connection is at the end of the peer's queue, or closed and in no queue.
  pub release_connection-Released :
      (peer : Text) (fd : ℕ) (p : RaftConnectionPool) (w : N.World)
      → NotQueued fd p
      → IsOpen w fd
      → IsSound D p w
      → Released peer fd p (release_connection N peer fd p w)
  unfolding release_connection
  release_connection-Released peer fd p w free opened sound =
      let r = N.peek fd w in
      let watched = IsSound-keeps D p w r.1 (D.peek_keeps fd w) sound in
      if_cases (Released peer fd p) (not (owned_by (lookup fd p.fd_to_peer_map) peer)) _ _
        (λ foreign. (close-IsSound D fd p w free sound, inr (free, (w, refl))))
        (λ own.
          if_cases (Released peer fd p) (not (is_valid r.0)) _ _
            (λ broken. (
              forget-IsSound D fd p (N.close fd r.1) free (close-IsSound D fd p r.1 free watched),
              inr (λ other. rw (queue_of-forget fd other p) (free other), (r.1, refl)),
            ))
            (λ valid.
              put_back-Released peer fd p r.1 free (D.peek_keeps fd w fd opened)
                (owned_by-true (lookup fd p.fd_to_peer_map) peer (not-false _ own)) watched))
