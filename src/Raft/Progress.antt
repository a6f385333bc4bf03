-- ===== src/Raft/Progress.antt =====
-- The maps m_nextIndex and m_matchIndex of raft/RaftNode.cpp, under the writes of startElection
-- and heartbeatLoop.
use yolo_server.Prelude.{
  text_eq_refl, refl, ℕ, ◌≤◌, ◌<◌, ◌≡◌, ◌⊎◌, refl, true, some, List, [], ◌∷◌, arith, length, All,
  All-map, Text, text_eq, text_eq_iff, if◌then◌else◌, Bool-cases, inl, inr, subst, sym,
}
use yolo_server.Prelude.Assoc.{
  Assoc, lookup, insert, erase, lookup-insert, text_key, values, All-insert, All-values-insert,
}
use yolo_server.Raft.Types.{leader, RaftNode}
use yolo_server.Raft.Heartbeat.{index_of}
use yolo_server.Raft.Election.{init_progress, become_leader}
use yolo_server.Raft.Invariant.{IsValid, HasNext, Kept, contains}

-- The writes of one value to a list of keys.
abbrev pub reset : List Text → ℕ → Assoc Text ℕ → Assoc Text ℕ
reset [] v m = m
reset (p ∷ ps) v m = reset ps v (insert p v m)

pub init_progress_lem :
    (ps : List Text) (n : RaftNode)
    → init_progress ps n ≡ record n {
      next_index = reset ps (length n.logs) n.next_index;
      match_index = reset ps 0 n.match_index;
    }
unfolding init_progress
init_progress_lem [] n = refl
init_progress_lem (p ∷ ps) n = init_progress_lem ps _

lookup-reset :
    (ps : List Text) (v : ℕ) (m : Assoc Text ℕ) (j : Text)
    → lookup j (reset ps v m) ≡ (if contains ps j then some v else lookup j m)
lookup-reset [] v m j = refl
lookup-reset (p ∷ ps) v m j = ground (
  arith,
  lookup-reset ps v (insert p v m) j,
  lookup-insert p j v m,
  text_eq_iff p j,
  text_eq_iff j p,
)

pub contains_self : (ps : List Text) → All (λ q. contains ps q ≡ true) ps
contains_self [] = tt
contains_self (p ∷ ps) =
    (ground (arith, text_eq_iff p p), All-map (λ q h. ground arith) ps (contains_self ps))

pub contains_All {κ} :
    (P : Text → Type κ) (ps : List Text) (q : Text) → All P ps → contains ps q ≡ true → P q
contains_All P [] q h c = absurd (ground arith)
contains_All P (p ∷ ps) q h c = elim (Bool-cases (text_eq q p)) [
  | inl same ↦ subst P (sym ((text_eq_iff q p).0 same)) h.0
  | inr other ↦ contains_All P ps q h.1 (ground arith)
]

reset-HasNext :
    (ps : List Text) (size : ℕ) (m : Assoc Text ℕ)
    → 1 ≤ size
    → All (HasNext (reset ps size m) size) ps
reset-HasNext ps size m h =
    All-map (λ q c. (size, rw (lookup-reset ps size m q, c), h, omega arith)) ps (contains_self ps)

-- After a write to `p` only the other keys can still hold a large value.
erase_shrinks :
    (ps : List Text) (p : Text) (size : ℕ) (m : Assoc Text ℕ)
    → All (λ (kv : Text × ℕ). (contains (p ∷ ps) kv.0 ≡ true) ⊎ (kv.1 < size)) m
    → All (λ (kv : Text × ℕ). (contains ps kv.0 ≡ true) ⊎ (kv.1 < size)) (erase p m)
unfolding erase
erase_shrinks ps p size [] a = tt
erase_shrinks ps p size ((j, w) ∷ m) a = ground (arith, erase_shrinks ps p size m a.1)

insert_shrinks :
    (ps : List Text) (p : Text) (size : ℕ) (m : Assoc Text ℕ)
    → 0 < size
    → All (λ (kv : Text × ℕ). (contains (p ∷ ps) kv.0 ≡ true) ⊎ (kv.1 < size)) m
    → All (λ (kv : Text × ℕ). (contains ps kv.0 ≡ true) ⊎ (kv.1 < size)) (insert p 0 m)
unfolding insert
insert_shrinks ps p size m h a = (inr h, erase_shrinks ps p size m a)

reset_below :
    (ps : List Text) (size : ℕ) (m : Assoc Text ℕ)
    → 0 < size
    → All (λ (kv : Text × ℕ). (contains ps kv.0 ≡ true) ⊎ (kv.1 < size)) m
    → All (λ i. i < size) (values (reset ps 0 m))
reset_below [] size [] h a = tt
reset_below [] size ((j, w) ∷ m) h a = (ground arith, reset_below [] size m h a.1)
reset_below (p ∷ ps) size m h a =
    reset_below ps size (insert p 0 m) h (insert_shrinks ps p size m h a)

reset-tracked :
    (peers ps : List Text) (v : ℕ) (m : Assoc Text ℕ)
    → All (λ q. contains peers q ≡ true) ps
    → All (λ (kv : Text × ℕ). contains peers kv.0 ≡ true) m
    → All (λ (kv : Text × ℕ). contains peers kv.0 ≡ true) (reset ps v m)
reset-tracked peers [] v m c h = h
reset-tracked peers (p ∷ ps) v m c h =
    reset-tracked peers ps v (insert p v m) c.1
      (All-insert (λ (kv : Text × ℕ). contains peers kv.0 ≡ true) p v m c.0 h)

-- A node that becomes leader knows where to start with each of its peers.
pub become_leader-Kept : (n : RaftNode) → IsValid n → Kept n (become_leader n)
unfolding become_leader
become_leader-Kept n v = rw (init_progress_lem n.peers (record n { state = leader })) (record {
  valid = record {
    indexed = v.indexed;
    committed = v.committed;
    applied = v.applied;
    fits = v.fits;
    tracked = reset-tracked n.peers n.peers 0 n.match_index (contains_self n.peers) v.tracked;
    ready = λ h. record {
      next_known = reset-HasNext n.peers (length n.logs) n.next_index (omega (arith, v.committed));
      match_below =
          reset_below n.peers (length n.logs) n.match_index (omega (arith, v.committed))
            (All-map (λ kv c. inl c) n.match_index v.tracked);
    };
  };
  term_grows = omega arith;
  vote_stays = inr (refl, inr refl);
  commit_grows = omega arith;
  prefix = refl;
  same_id = refl;
  peers_stay = refl;
})

insert-HasNext :
    (m : Assoc Text ℕ) (size : ℕ) (p : Text) (i : ℕ) (q : Text)
    → 1 ≤ i
    → i ≤ size
    → HasNext m size q
    → HasNext (insert p i m) size q
insert-HasNext m size p i q low high (k, there, klow, khigh) = elim (Bool-cases (text_eq p q)) [
  | inl same ↦ (i, rw (lookup-insert p q i m, same), low, high)
  | inr other ↦ (k, rw (lookup-insert p q i m, other) there, klow, khigh)
]

pub index_of-HasNext :
    (m : Assoc Text ℕ) (size : ℕ) (p : Text)
    → HasNext m size p
    → (1 ≤ index_of p m) × (index_of p m ≤ size)
unfolding index_of
index_of-HasNext m size p (i, there, low, high) = rw (there, index_of) (low, high)

pub index_of-insert : (m : Assoc Text ℕ) (p : Text) (i : ℕ) → index_of p (insert p i m) ≡ i
unfolding index_of
index_of-insert m p i = rw (lookup-insert p p i m, text_eq_refl p, index_of)

-- A new next index within the log.
pub set_next-Kept :
    (n : RaftNode) (p : Text) (i : ℕ)
    → IsValid n
    → 1 ≤ i
    → i ≤ length n.logs
    → Kept n (record n { next_index = insert p i n.next_index })
set_next-Kept n p i v low high = record {
  valid = record {
    indexed = v.indexed;
    committed = v.committed;
    applied = v.applied;
    fits = v.fits;
    tracked = v.tracked;
    ready = λ h. record {
      next_known =
          All-map (λ q known. insert-HasNext n.next_index (length n.logs) p i q low high known)
            n.peers (v.ready h).next_known;
      match_below = (v.ready h).match_below;
    };
  };
  term_grows = omega arith;
  vote_stays = inr (refl, inr refl);
  commit_grows = omega arith;
  prefix = refl;
  same_id = refl;
  peers_stay = refl;
}

-- A new match index below the end of the log.
pub set_match-Kept :
    (n : RaftNode) (p : Text) (i : ℕ)
    → IsValid n
    → contains n.peers p ≡ true
    → i < length n.logs
    → Kept n (record n { match_index = insert p i n.match_index })
set_match-Kept n p i v c h = record {
  valid = record {
    indexed = v.indexed;
    committed = v.committed;
    applied = v.applied;
    fits = v.fits;
    tracked =
        All-insert (λ (kv : Text × ℕ). contains n.peers kv.0 ≡ true) p i n.match_index c v.tracked;
    ready = λ s. record {
      next_known = (v.ready s).next_known;
      match_below =
          All-values-insert (λ k. k < length n.logs) p i n.match_index h (v.ready s).match_below;
    };
  };
  term_grows = omega arith;
  vote_stays = inr (refl, inr refl);
  commit_grows = omega arith;
  prefix = refl;
  same_id = refl;
  peers_stay = refl;
}
