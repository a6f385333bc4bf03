-- ===== src/Pool/Cleaning.antt =====
-- cleanupLoop of raft/RaftConnectionPool.cpp.
use yolo_server.Prelude.{ℕ, ◌≡◌, ◌⊎◌, Bool, true, false, Text, List, All}
use yolo_server.Prelude.Assoc.{text_key}
use yolo_server.Pool.Net.{Net, Descriptors}
use yolo_server.Pool.Connections.{ConnectionInfo, RaftConnectionPool, queue_of, set_queue}
use yolo_server.Pool.Cleanup.{is_expired}
use yolo_server.Pool.Invariant.{IsSound}
use yolo_server.Pool.Queues.{IsFresh, has_text}

module _ {N : Net} (D : Descriptors N) (time : ℕ) where
  -- What the inner loop keeps: with its queue in the pool all is well, and its connections are fresh.
  abbrev Swept :
      Text → List ConnectionInfo × RaftConnectionPool × N.World → RaftConnectionPool → Type 0
  Swept peer (kept, p', w') p =
      IsSound D (set_queue peer kept p') w'
      × All (IsFresh time) kept
      × ((other : Text) → queue_of other p' ≡ queue_of other p)

  -- Every queue is fresh, or one that is still to be swept.
  abbrev Pending : List Text → RaftConnectionPool → Type 0
  Pending peers p =
      (other : Text) → (has_text other peers ≡ true) ⊎ All (IsFresh time) (queue_of other p)

module _ {N : Net} (D : Descriptors N) where
  -- The pool is good; if the loop goes on, no queue has an expired connection.
  abbrev pub Cleaned : ℕ → Bool × RaftConnectionPool × N.World → Type 0
  Cleaned time (goes_on, p, w) =
      IsSound D p w
      × (goes_on ≡ true → (peer : Text) → All (λ c. is_expired time c ≡ false) (queue_of peer p))
