-- ===== src/Raft/Safety.antt =====
-- A cluster of nodes of raft/RaftNode.cpp, each driven through its own sequence of calls: no two of
-- them lead the same term.
use yolo_server.Prelude.{
  ℕ, ◌+◌, ◌*◌, ◌≤◌, ◌<◌, ◌≡◌, ◌≢◌, refl, ap, subst, true, false, List, [], ◌∷◌, arith, Text, All,
  All-map, All-map2, Any-All, length, if◌then◌else◌, if_both, if_cases, text_eq, text_eq_iff,
}
use yolo_server.Raft.Types.{leader, RaftNode}
use yolo_server.Raft.Env.{Env}
use yolo_server.Raft.Invariant.{IsValid, contains}
use yolo_server.Raft.Progress.{contains_All}
use yolo_server.Raft.Steps.{Reach}
use yolo_server.Raft.Quorum.{AreDistinct, AllIn, quorums_meet}
use yolo_server.Raft.History.{HasBallot, ballots, wins, ballots-Agree, Agree-same}
use yolo_server.Raft.Winning.{IsVictory, wins-IsVictory}
use yolo_server.Raft.Leaders.{leads-wins}

-- A node from its construction to the present, with the calls that it has taken.
pub record Member : Type 1 where
  pub env : Env
  pub start : RaftNode
  pub current : RaftNode
  pub run : Reach env start current

-- The members but one.
abbrev pub except : Text → List Text → List Text
except p [] = []
except p (q ∷ qs) = let rest = except p qs in if text_eq q p then rest else q ∷ rest

abbrev pub HasVoted : Member → ℕ → Text → Type 0
HasVoted m term id = HasBallot (ballots m.env m.run) term id

pub record IsMember (ids : List Text) (id : Text) (m : Member) : Type 0 where
  pub valid : IsValid m.start
  pub named : m.start.node_id ≡ id
  pub peers : m.start.peers ≡ except id ids
  pub follows : m.start.state ≢ leader

-- Each vote by which the node has won was given by the peer for which it was counted.
abbrev pub Backed : (Text → Member) → Text → Type 0
Backed cluster p =
    All (λ (x : ℕ × List Text). All (λ q. HasVoted (cluster q) x.0 p) x.1)
      (wins (cluster p).env (cluster p).run)

-- The nodes have different ids that are not empty, and each has the others as its peers. A reply
-- that grants a vote comes from a node that has given it.
pub record IsCluster (ids : List Text) (cluster : Text → Member) : Type 0 where
  pub distinct : AreDistinct ids
  pub named : All (λ p. p ≢ []) ids
  pub members : All (λ p. IsMember ids p (cluster p)) ids
  pub honest : All (Backed cluster) ids

except_absent : (p : Text) (ids : List Text) → contains ids p ≡ false → except p ids ≡ ids
except_absent p [] h = refl
except_absent p (q ∷ qs) h =
    if_cases (λ xs. xs ≡ q ∷ qs) (text_eq q p) _ _
      (λ same. absurd (ground (arith, text_eq_iff q p, text_eq_iff p q)))
      (λ other. ap (◌∷◌ q) (except_absent p qs (ground arith)))

length-except :
    (p : Text) (ids : List Text) → AreDistinct ids → length ids ≤ length (except p ids) + 1
length-except p [] d = omega arith
length-except p (q ∷ qs) d =
    if_cases (λ xs. length (q ∷ qs) ≤ length xs + 1) (text_eq q p) _ _
      (λ same.
        let absent : contains qs p ≡ false =
          subst (λ r. contains qs r ≡ false) ((text_eq_iff q p).0 same) d.0 in
        omega (arith, ap length (except_absent p qs absent)))
      (λ other. omega (arith, length-except p qs d.1))

pub except_self : (p : Text) (ids : List Text) → contains (except p ids) p ≡ false
except_self p [] = refl
except_self p (q ∷ qs) =
    if_cases (λ xs. contains xs p ≡ false) (text_eq q p) _ _ (λ same. except_self p qs)
      (λ other. ground (arith, except_self p qs, text_eq_iff p q, text_eq_iff q p))

contains-except :
    (p q : Text) (ids : List Text) → contains ids q ≡ false → contains (except p ids) q ≡ false
contains-except p q [] h = refl
contains-except p q (r ∷ rs) h =
    if_cases (λ xs. contains xs q ≡ false) (text_eq r p) _ _
      (λ same. contains-except p q rs (ground arith))
      (λ other. ground (arith, contains-except p q rs))

except-AreDistinct : (p : Text) (ids : List Text) → AreDistinct ids → AreDistinct (except p ids)
except-AreDistinct p [] d = tt
except-AreDistinct p (q ∷ qs) d =
    if_both AreDistinct (text_eq q p) _ _ (except-AreDistinct p qs d.1)
      (contains-except p q qs d.0, except-AreDistinct p qs d.1)

AllIn-cons : (xs ms : List Text) (m : Text) → AllIn xs ms → AllIn xs (m ∷ ms)
AllIn-cons xs ms m h = All-map (λ x c. ground arith) xs h

except-AllIn : (p : Text) (ids : List Text) → AllIn (except p ids) ids
except-AllIn p [] = tt
except-AllIn p (q ∷ qs) =
    let rest = AllIn-cons (except p qs) qs q (except-AllIn p qs) in
    if_both (λ xs. AllIn xs (q ∷ qs)) (text_eq q p) _ _ rest (ground (arith, text_eq_iff q q), rest)

AllIn-trans : (xs ys zs : List Text) → AllIn xs ys → AllIn ys zs → AllIn xs zs
AllIn-trans xs ys zs h k = All-map (λ x c. contains_All (λ y. contains zs y ≡ true) ys x k c) xs h

module _ (ids : List Text) (cluster : Text → Member) where
  -- The votes by which a node leads: its own and those of its supporters.
  record IsQuorum (term : ℕ) (id : Text) (voters : List Text) : Type 0 where
    large : length ids < 2 * length voters
    distinct : AreDistinct voters
    members : AllIn voters ids
    voted : All (λ q. HasVoted (cluster q) term id) voters

  leader-IsQuorum :
      (p : Text)
      → IsCluster ids cluster
      → contains ids p ≡ true
      → (cluster p).current.state ≡ leader
      → (voters : List Text) × IsQuorum (cluster p).current.current_term p voters
  leader-IsQuorum p c inside leads =
      let m = cluster p in
      let is = contains_All (λ q. IsMember ids q (cluster q)) ids p c.members inside in
      let votes =
        All-map2
          {R = λ (x : ℕ × List Text).
            IsVictory m.env m.start.node_id m.start.peers (ballots m.env m.run) x
            × All (λ q. HasVoted (cluster q) x.0 p) x.1}
          (λ x v h. (v, h)) (wins m.env m.run) (wins-IsVictory m.env is.valid m.run)
          (contains_All (Backed cluster) ids p c.honest inside) in
      let (x, at_term, both) =
        Any-All (wins m.env m.run) (leads-wins m.env is.valid is.follows m.run leads) votes in
      let v =
        subst (λ ps. IsVictory m.env m.start.node_id ps (ballots m.env m.run) x) is.peers both.0 in
      let sub = AllIn-trans x.1 (except p ids) ids v.members (except-AllIn p ids) in
      let apart : contains x.1 p ≡ false = absent x.1 v.members in
      (
        p ∷ x.1,
        record {
          large = omega (arith, v.majority, length-except p ids c.distinct);
          distinct = (apart, v.distinct (except-AreDistinct p ids c.distinct));
          members = (inside, sub);
          voted =
              subst (λ t. All (λ q. HasVoted (cluster q) t p) (p ∷ x.1)) at_term
                (subst (λ id. HasVoted m x.0 id) is.named v.own, both.1);
        },
      )
    where
      absent : (xs : List Text) → AllIn xs (except p ids) → contains xs p ≡ false
      absent [] h = refl
      absent (y ∷ ys) h = ground (arith, h.0, absent ys h.1, text_eq_iff p y, except_self p ids)

  -- In a cluster whose nodes start from valid states and do not lead yet, with distinct ids that
  -- are not empty and each with the others as its peers, and where a counted vote was given by the
  -- peer that it is counted for, two nodes that lead the same term are the same node, after any
  -- sequence of calls on each in which the AppendEntries requests are sound (their entries carry
  -- the indices of their places, contradict no committed entry of the node, and keep the log
  -- shorter than 2^64) and neither the term nor the length of the log wraps around.
  pub one_leader_per_term :
      (p q : Text)
      → IsCluster ids cluster
      → contains ids p ≡ true
      → contains ids q ≡ true
      → (cluster p).current.state ≡ leader
      → (cluster q).current.state ≡ leader
      → (cluster p).current.current_term ≡ (cluster q).current.current_term
      → p ≡ q
  one_leader_per_term p q c in_p in_q leads_p leads_q same =
      let (xs, a) = leader-IsQuorum p c in_p leads_p in
      let (ys, b) = leader-IsQuorum q c in_q leads_q in
      let (x, in_xs, in_ys) =
        quorums_meet xs ys ids a.distinct b.distinct a.members b.members
          (omega (arith, a.large, b.large)) in
      let term = (cluster q).current.current_term in
      let inside = contains_All (λ r. contains ids r ≡ true) xs x a.members in_xs in
      let is = contains_All (λ r. IsMember ids r (cluster r)) ids x c.members inside in
      Agree-same (ballots (cluster x).env (cluster x).run) term p q
        (ballots-Agree (cluster x).env is.valid (cluster x).run)
        (contains_All (λ r. r ≢ []) ids p c.named in_p)
        (contains_All (λ r. r ≢ []) ids q c.named in_q)
        (subst (λ t. HasVoted (cluster x) t p) same
          (contains_All (λ r. HasVoted (cluster r) (cluster p).current.current_term p) xs x a.voted
            in_xs))
        (contains_All (λ r. HasVoted (cluster r) term q) ys x b.voted in_ys)
