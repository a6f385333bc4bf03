-- ===== src/Raft/History.antt =====
-- The votes that a node of raft/RaftNode.cpp gives in its life, to others and to itself, and the
-- elections that it wins.
use yolo_server.Prelude.{
  ℕ, ◌+◌, ◌-◌, ◌<◌, ◌≡◌, ◌≢◌, refl, sym, ap, ◌∙◌, subst, Bool, true, not, ◌&&◌, Option, none, some,
  List, [], ◌∷◌, arith, inl, inr, Text, All, All-map, All-push, Any, Any-All, push, ◌⊎◌, leb,
  if◌then◌else◌, back, Bool-cases,
}
use mathlib.Core.Option.{some-injective, none-ne-some}
use yolo_server.Raft.Types.{LogEntry, RaftNode, RequestVoteArgs, RequestVoteReply, is_leader}
use yolo_server.Raft.Env.{Env}
use yolo_server.Raft.Election.{start_election, election_tick}
use yolo_server.Raft.Invariant.{IsValid, Kept, VoteStep, VoteStep-trans}
use yolo_server.Raft.Campaign.{candidate_of, start_election-candidate}
use yolo_server.Raft.Elected.{candidacy}
use yolo_server.Raft.Steps.{
  Step, Reach, here, next, votes, appends, submits, elects, beats, Step-Kept, Reach-Kept,
  granted_fields, Ensures_some,
}

-- A term and the candidate that got the vote of that term.
abbrev pub Ballot : Type 0
Ballot = ℕ × Text

abbrev pub HasBallot : List Ballot → ℕ → Text → Type 0
HasBallot bs term id = Any (λ (b : Ballot). (b.0 ≡ term) × (b.1 ≡ id)) bs

-- Of two votes of one term the later goes to the candidate of the earlier, if that has a name.
abbrev pub SameVote : Ballot → Ballot → Type 0
SameVote b early = b.0 ≡ early.0 → early.1 ≢ [] → b.1 ≡ early.1

abbrev pub Agree : List Ballot → Type 0
Agree [] = Unit
Agree (b ∷ bs) = All (SameVote b) bs × Agree bs

Agree-push :
    (o : Option Ballot) (bs : List Ballot)
    → ((b : Ballot) → o ≡ some b → All (SameVote b) bs)
    → Agree bs
    → Agree (push o bs)
Agree-push none bs h a = a
Agree-push (some b) bs h a = (h b refl, a)

-- Two votes of one term in a list that agrees went to the same candidate.
pub Agree-same :
    (bs : List Ballot) (term : ℕ) (c d : Text)
    → Agree bs
    → c ≢ []
    → d ≢ []
    → HasBallot bs term c
    → HasBallot bs term d
    → c ≡ d
Agree-same [] term c d a nc nd x y = elim x [ ]
Agree-same (b ∷ bs) term c d a nc nd (inl x) (inl y) = sym x.1 ∙ y.1
Agree-same (b ∷ bs) term c d a nc nd (inl x) (inr y) =
    let (early, e, same) = Any-All bs y a.0 in
    sym x.1 ∙ same (x.0 ∙ sym e.0) (λ none_named. nd (sym e.1 ∙ none_named)) ∙ e.1
Agree-same (b ∷ bs) term c d a nc nd (inr x) (inl y) =
    let (early, e, same) = Any-All bs x a.0 in
    sym (sym y.1 ∙ same (y.0 ∙ sym e.0) (λ none_named. nc (sym e.1 ∙ none_named)) ∙ e.1)
Agree-same (b ∷ bs) term c d a nc nd (inr x) (inr y) = Agree-same bs term c d a.1 nc nd x y

-- The list with a peer, if its reply grants the vote.
abbrev pub with_vote : Option RequestVoteReply → Text → List Text → List Text
with_vote none p ps = ps
with_vote (some r) p ps = if r.vote_granted then p ∷ ps else ps

module _ (E : Env) where
  open E use {World, now, draw_timeout, send_request_vote}

  -- The test of electionLoop.
  abbrev pub is_due : RaftNode → World → Bool
  is_due n w =
      not (is_leader n.state) && leb n.election_timeout_ms ((now w).0 - n.last_heartbeat_time)

  -- The peers that grant their vote, asked one after the other.
  abbrev pub granters : List Text → RequestVoteArgs → World → List Text
  granters [] args w = []
  granters (p ∷ ps) args w =
      with_vote (send_request_vote w p args).0 p (granters ps args (send_request_vote w p args).1)

  -- The peers that vote for a node whose election begins in this world.
  abbrev pub support : RaftNode → World → Option LogEntry → List Text
  support n w none = []
  support n w (some last) = granters n.peers (candidacy E n last) (now (draw_timeout w).1).1

  abbrev pub supporters : RaftNode → World → List Text
  supporters n w = support n w (back n.logs)

  -- The vote of one call: granted to a candidate, or the candidate's own.
  abbrev pub cast_in : {n n' : RaftNode} → Step E n n' → Option Ballot
  cast_in (votes args w w' reply e) =
      if reply.vote_granted then some (args.term, args.candidate_id) else none
  cast_in (appends args w w' reply s e) = none
  cast_in (submits key value done room e) = none
  cast_in {n} (elects w w' room e) =
      if is_due n w then some (n.current_term + 1, n.node_id) else none
  cast_in (beats w w' e) = none

  -- The election that the call wins: the term, and the peers that voted.
  abbrev pub won_in : {n n' : RaftNode} → Step E n n' → Option (ℕ × List Text)
  won_in {n} {n'} (elects w w' room e) =
      if is_due n w && is_leader n'.state
      then some (n'.current_term, supporters n (now w).1)
      else none
  won_in (votes args w w' reply e) = none
  won_in (appends args w w' reply s e) = none
  won_in (submits key value done room e) = none
  won_in (beats w w' e) = none

  -- The votes and the victories of a run, the latest first.
  abbrev pub ballots : {n n' : RaftNode} → Reach E n n' → List Ballot
  ballots here = []
  ballots (next r st) = push (cast_in st) (ballots r)

  abbrev pub wins : {n n' : RaftNode} → Reach E n n' → List (ℕ × List Text)
  wins here = []
  wins (next r st) = push (won_in st) (wins r)

  -- An election that is due runs; otherwise the node stays as it is.
  pub election_tick-due :
      (n : RaftNode) (w : World) {n' : RaftNode} {w' : World}
      → is_due n w ≡ true
      → election_tick E n w ≡ some (n', w')
      → start_election E n (now w).1 ≡ some (n', w')
  unfolding election_tick
  election_tick-due n w due e = rw due at e

  -- The ballot stands in the node.
  abbrev Stands : RaftNode → Ballot → Type 0
  Stands n b = VoteStep b.0 b.1 n.current_term n.voted_for

  -- Which vote a call casts: it is that of a term which is newer than the node's, or the one that
  -- the node afterwards holds.
  cast_in-Stands :
      {n n' : RaftNode} (b : Ballot)
      → IsValid n
      → (st : Step E n n') → cast_in st ≡ some b
      → Stands n' b
  cast_in-Stands {n} {n'} b v (votes args w w' reply e) h = elim (Bool-cases reply.vote_granted) [
    | inl yea ↦
        let (voted, term) = granted_fields E n args w v e yea in
        let same : (args.term, args.candidate_id) ≡ b = some-injective _ _ (rw yea at h) in
        subst (Stands n') same (inr (sym term, inr voted))
    | inr nay ↦ absurd (none-ne-some b (rw nay at h))
  ]
  cast_in-Stands b v (appends args w w' reply s e) h = absurd (none-ne-some b h)
  cast_in-Stands b v (submits key value done room e) h = absurd (none-ne-some b h)
  cast_in-Stands {n} {n'} b v (elects w w' room e) h = elim (Bool-cases (is_due n w)) [
    | inl due ↦
        let same : (n.current_term + 1, n.node_id) ≡ b = some-injective _ _ (rw due at h) in
        let k =
          Ensures_some (λ r. Kept (candidate_of E n (now w).1) r.0)
            (start_election-candidate E n (now w).1 v room) (election_tick-due n w due e) in
        subst (Stands n') same (
          subst (λ t. VoteStep t n.node_id n'.current_term n'.voted_for) (omega arith) k.vote_stays)
    | inr early ↦ absurd (none-ne-some b (rw early at h))
  ]
  cast_in-Stands b v (beats w w' e) h = absurd (none-ne-some b h)

  -- A vote that is cast belongs to a newer term, or the node holds it afterwards.
  cast_in-new :
      {n n' : RaftNode} (b : Ballot)
      → IsValid n
      → (st : Step E n n') → cast_in st ≡ some b
      → (n.current_term < b.0) ⊎ ((n'.current_term ≡ b.0) × (n'.voted_for ≡ b.1))
  cast_in-new {n} {n'} b v (votes args w w' reply e) h = elim (Bool-cases reply.vote_granted) [
    | inl yea ↦
        let (voted, term) = granted_fields E n args w v e yea in
        let same : (args.term, args.candidate_id) ≡ b = some-injective _ _ (rw yea at h) in
        inr (term ∙ ap (λ (x : Ballot). x.0) same, voted ∙ ap (λ (x : Ballot). x.1) same)
    | inr nay ↦ absurd (none-ne-some b (rw nay at h))
  ]
  cast_in-new b v (appends args w w' reply s e) h = absurd (none-ne-some b h)
  cast_in-new b v (submits key value done room e) h = absurd (none-ne-some b h)
  cast_in-new {n} {n'} b v (elects w w' room e) h = elim (Bool-cases (is_due n w)) [
    | inl due ↦
        let same : (n.current_term + 1, n.node_id) ≡ b = some-injective _ _ (rw due at h) in
        inl (omega (arith, ap (λ (x : Ballot). x.0) same))
    | inr early ↦ absurd (none-ne-some b (rw early at h))
  ]
  cast_in-new b v (beats w w' e) h = absurd (none-ne-some b h)

  pub ballots-Stand :
      {n n' : RaftNode} → IsValid n → (r : Reach E n n') → All (Stands n') (ballots r)
  ballots-Stand v here = tt
  ballots-Stand {n} {n'} v (next {m} r st) =
      let vm = (Reach-Kept E v r).valid in
      All-push (Stands n') (cast_in st) (ballots r) (λ b e. cast_in-Stands b vm st e)
        (All-map
          (λ b h.
            VoteStep-trans b.0 m.current_term n'.current_term b.1 m.voted_for n'.voted_for h
              (Step-Kept E vm st).vote_stays)
          (ballots r) (ballots-Stand v r))

  same_vote :
      (n n' : RaftNode) (b early : Ballot)
      → (n.current_term < b.0) ⊎ ((n'.current_term ≡ b.0) × (n'.voted_for ≡ b.1))
      → Stands n early
      → Stands n' early
      → SameVote b early
  same_vote n n' b early (inl newer) (inl past) now_stands e named = absurd (omega arith)
  same_vote n n' b early (inl newer) (inr (at_term, x)) now_stands e named = absurd (omega arith)
  same_vote n n' b early (inr (t, c)) stood (inl past) e named = absurd (omega arith)
  same_vote n n' b early (inr (t, c)) stood (inr (at_term, inl no_vote)) e named =
      absurd (named no_vote)
  same_vote n n' b early (inr (t, c)) stood (inr (at_term, inr kept)) e named = sym c ∙ kept

  -- In the whole run of a valid node, its own candidacies included, no two votes of one term go to
  -- different candidates.
  pub ballots-Agree : {n n' : RaftNode} → IsValid n → (r : Reach E n n') → Agree (ballots r)
  ballots-Agree v here = tt
  ballots-Agree {n} {n'} v (next {m} r st) =
      let vm = (Reach-Kept E v r).valid in
      let k = Step-Kept E vm st in
      Agree-push (cast_in st) (ballots r)
        (λ b e.
          All-map
            (λ early h. same_vote m n' b early (cast_in-new b vm st e) h (
              VoteStep-trans early.0 m.current_term n'.current_term early.1 m.voted_for n'.voted_for
                h k.vote_stays))
            (ballots r) (ballots-Stand v r))
        (ballots-Agree v r)
