-- ===== src/Pool/Queues.antt =====
-- Queues of raft/RaftConnectionPool.cpp, before and after cleanupLoop.
use yolo_server.Prelude.{
  ℕ, ◌≡◌, ◌≢◌, ◌⊎◌, refl, sym, ap, ◌∙◌, Bool, true, false, ◌||◌, Text, List, [], ◌∷◌, ◌++◌, All,
  if◌then◌else◌, text_eq, text_eq_refl, Bool-cases, inl, inr, subst,
}
use yolo_server.Prelude.Assoc.{Assoc, lookup, text_key}
use yolo_server.Pool.Connections.{or_empty, ConnectionInfo, RaftConnectionPool, queue_of, set_queue}
use yolo_server.Pool.Cleanup.{is_expired, peers_of}
use yolo_server.Pool.Invariant.{IsDistinct, queue_of-set_queue}

-- An element moved to the front of a list.
pub All-front {ℓ κ} :
    {A : Type ℓ} (P : A → Type κ) (x : A) (xs ys : List A)
    → All P (xs ++ x ∷ ys)
    → All P (x ∷ (xs ++ ys))
All-front P x [] ys h = h
All-front P x (z ∷ xs) ys (pz, h) = let (px, rest) = All-front P x xs ys h in (px, (pz, rest))

pub IsDistinct-front :
    (c : ConnectionInfo) (xs ys : List ConnectionInfo)
    → IsDistinct (xs ++ c ∷ ys)
    → IsDistinct (c ∷ (xs ++ ys))
IsDistinct-front c [] ys h = h
IsDistinct-front c (x ∷ xs) ys (apart, h) =
    let (c_apart, rest) = IsDistinct-front c xs ys h in
    let (x_c, x_apart) = All-front (λ (d : ConnectionInfo). d.fd ≢ x.fd) c xs ys apart in
    (((λ e. x_c (sym e)), c_apart), (x_apart, rest))

abbrev pub IsFresh : ℕ → ConnectionInfo → Type 0
IsFresh time c = is_expired time c ≡ false

pub queue_of_own :
    (peer : Text) (q : List ConnectionInfo) (p : RaftConnectionPool)
    → queue_of peer (set_queue peer q p) ≡ q
queue_of_own peer q p =
    queue_of-set_queue peer peer q p
    ∙ ap (λ b. if b then q else queue_of peer p) (text_eq_refl peer)

abbrev pub has_text : Text → List Text → Bool
has_text other [] = false
has_text other (peer ∷ peers) = text_eq peer other || has_text other peers

-- A peer without an entry has an empty queue.
lookup_absent :
    (other : Text) (m : Assoc Text (List ConnectionInfo))
    → (has_text other (peers_of m) ≡ true) ⊎ (or_empty (lookup other m) ≡ [])
unfolding lookup
lookup_absent other [] = inr refl
lookup_absent other ((peer, q) ∷ m) = elim (Bool-cases (text_eq peer other)) [
  | inl this ↦ inl (rw this refl)
  | inr apart ↦ rw apart (lookup_absent other m)
]

pub each_peer :
    (time : ℕ) (other : Text) (p : RaftConnectionPool)
    → (has_text other (peers_of p.connection_pools) ≡ true) ⊎ All (IsFresh time) (queue_of other p)
unfolding queue_of
each_peer time other p = elim (lookup_absent other p.connection_pools) [
  | inl later ↦ inl later
  | inr none_there ↦ inr (subst (All (IsFresh time)) (sym none_there) tt)
]
