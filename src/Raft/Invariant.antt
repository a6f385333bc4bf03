-- ===== src/Raft/Invariant.antt =====
-- What holds of a RaftNode (raft/RaftNode.h) between two of its methods.
use yolo_server.Prelude.{
  ltb, Bool-cases, ◌⊎◌, inl, inr, sym, ap, ◌∙◌, take-take, ℕ, suc, ◌+◌, ◌≤◌, ◌<◌, ◌≡◌, refl, Bool,
  true, false, ◌||◌, some, List, [], ◌∷◌, arith, length, All, take, Text, text_eq,
}
use yolo_server.Prelude.Assoc.{Assoc, lookup, text_key, values}
use yolo_server.Raft.Types.{leader, RaftState, RaftNode, AppendEntriesArgs}
use yolo_server.Raft.Log.{IndexedFrom, Respects}

abbrev pub contains : List Text → Text → Bool
contains [] k = false
contains (p ∷ ps) k = text_eq k p || contains ps k

-- The next index of a peer is known and lies in the log or just behind it.
abbrev pub HasNext : Assoc Text ℕ → ℕ → Text → Type 0
HasNext m size p = (i : ℕ) × (lookup p m ≡ some i) × (1 ≤ i) × (i ≤ size)

pub record IsReady (n : RaftNode) : Type 0 where
  pub next_known : All (HasNext n.next_index (length n.logs)) n.peers
  pub match_below : All (λ i. i < length n.logs) (values n.match_index)

pub record IsValid (n : RaftNode) : Type 0 where
  pub indexed : IndexedFrom 0 n.logs
  pub committed : n.commit_index < length n.logs
  pub applied : n.last_applied ≡ n.commit_index
  pub fits : length n.logs < 18446744073709551616
  pub tracked : All (λ (kv : Text × ℕ). contains n.peers kv.0 ≡ true) n.match_index
  pub ready : n.state ≡ leader → IsReady n

-- From term and vote to a later term and vote: within a term a vote that is given stays.
abbrev pub VoteStep : ℕ → Text → ℕ → Text → Type 0
VoteStep term voted term' voted' =
    (term < term') ⊎ ((term ≡ term') × ((voted ≡ []) ⊎ (voted' ≡ voted)))

pub VoteStep-same : (term term' : ℕ) (voted : Text) → term ≤ term' → VoteStep term voted term' voted
VoteStep-same term term' voted le = elim (Bool-cases (ltb term term')) [
  | inl later ↦ inl (ground arith)
  | inr not_later ↦ inr (ground arith, inr refl)
]

pub VoteStep-trans :
    (s t u : ℕ) (a b c : Text) → VoteStep s a t b → VoteStep t b u c → VoteStep s a u c
VoteStep-trans s t u a b c (inl x) (inl y) = inl (omega arith)
VoteStep-trans s t u a b c (inl x) (inr y) = inl (omega arith)
VoteStep-trans s t u a b c (inr x) (inl y) = inl (omega arith)
VoteStep-trans s t u a b c (inr (e, inl none_yet)) (inr (f, y)) = inr (e ∙ f, inl none_yet)
VoteStep-trans s t u a b c (inr (e, inr x)) (inr (f, inl y)) = inr (e ∙ f, inl (sym x ∙ y))
VoteStep-trans s t u a b c (inr (e, inr x)) (inr (f, inr y)) = inr (e ∙ f, inr (y ∙ x))

-- What no method takes back: the invariant, the term, the vote of a term, the commit index and
-- the committed log; the id and the peers are fixed.
pub record Kept (n n' : RaftNode) : Type 0 where
  pub valid : IsValid n'
  pub term_grows : n.current_term ≤ n'.current_term
  pub vote_stays : VoteStep n.current_term n.voted_for n'.current_term n'.voted_for
  pub commit_grows : n.commit_index ≤ n'.commit_index
  pub prefix : take (suc n.commit_index) n'.logs ≡ take (suc n.commit_index) n.logs
  pub same_id : n'.node_id ≡ n.node_id
  pub peers_stay : n'.peers ≡ n.peers

pub Kept-refl : (n : RaftNode) → IsValid n → Kept n n
Kept-refl n v = record {
  valid = v;
  term_grows = omega arith;
  vote_stays = inr (refl, inr refl);
  commit_grows = omega arith;
  prefix = refl;
  same_id = refl;
  peers_stay = refl;
}

pub Kept-trans : {a b c : RaftNode} → Kept a b → Kept b c → Kept a c
Kept-trans {a} {b} {c} h k = record {
  valid = k.valid;
  term_grows = omega (arith, h.term_grows, k.term_grows);
  vote_stays = VoteStep-trans _ _ _ _ _ _ h.vote_stays k.vote_stays;
  commit_grows = omega (arith, h.commit_grows, k.commit_grows);
  same_id = k.same_id ∙ h.same_id;
  peers_stay = k.peers_stay ∙ h.peers_stay;
  prefix =
      sym
        (take-take (suc a.commit_index) (suc b.commit_index) c.logs (omega (arith, h.commit_grows)))
      ∙ ap (take (suc a.commit_index)) k.prefix
      ∙ take-take (suc a.commit_index) (suc b.commit_index) b.logs (omega (arith, h.commit_grows))
      ∙ h.prefix;
}

-- A node that leads afterwards did so before, in the same term.
abbrev pub LeadsOn : RaftNode → RaftNode → Type 0
LeadsOn n n' = n'.state ≡ leader → (n.state ≡ leader) × (n'.current_term ≡ n.current_term)

pub LeadsOn-trans : (a b c : RaftNode) → LeadsOn a b → LeadsOn b c → LeadsOn a c
LeadsOn-trans a b c h k leads =
    let (mid, same) = k leads in let (first, same') = h mid in (first, same ∙ same')

-- A change of the term, the vote, the role and the timer, which makes nobody a leader.
abbrev pub retouch : RaftNode → ℕ → Text → RaftState → ℕ → ℕ → RaftNode
retouch n term voted state timeout t = record n {
  current_term = term;
  voted_for = voted;
  state = state;
  election_timeout_ms = timeout;
  last_heartbeat_time = t;
}

pub retouch-Kept :
    (n : RaftNode) (term : ℕ) (voted : Text) (state : RaftState) (timeout t : ℕ)
    → IsValid n
    → VoteStep n.current_term n.voted_for term voted
    → (state ≡ leader → n.state ≡ leader)
    → Kept n (retouch n term voted state timeout t)
retouch-Kept n term voted state timeout t v vote stays = record {
  valid = record {
    indexed = v.indexed;
    committed = v.committed;
    applied = v.applied;
    fits = v.fits;
    tracked = v.tracked;
    ready = λ h.
        let r = v.ready (stays h) in
        record { next_known = r.next_known; match_below = r.match_below };
  };
  term_grows = omega arith;
  vote_stays = vote;
  commit_grows = omega arith;
  prefix = refl;
  same_id = refl;
  peers_stay = refl;
}

-- The request fits the log: its entries carry their positions, and none contradicts what is
-- committed.
pub record IsSound (n : RaftNode) (args : AppendEntriesArgs) : Type 0 where
  pub positions : IndexedFrom (args.prev_log_index + 1) args.entries
  pub respects : Respects n.commit_index n.logs (args.prev_log_index + 1) args.entries
  pub room : length n.logs + length args.entries < 18446744073709551616
