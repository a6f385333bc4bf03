-- ===== src/Raft/Winning.antt =====
-- The elections that a node of raft/RaftNode.cpp wins.
use yolo_server.Prelude.{
  ℕ, ◌+◌, ◌*◌, ◌<◌, ◌≡◌, refl, sym, ap, ◌∙◌, subst, true, false, ◌&&◌, Option, none, some, List, [],
  ◌∷◌, arith, inl, inr, Text, All, All-map, All-push, Any-push, push, length, Bool-cases, if_both,
  text_eq,
}
use mathlib.Core.Option.{some-injective, none-ne-some}
use yolo_server.Raft.Types.{leader, RaftNode, RequestVoteArgs, RequestVoteReply, is_leader}
use yolo_server.Raft.Env.{Env}
use yolo_server.Raft.Log.{back-some}
use yolo_server.Raft.Invariant.{IsValid, contains}
use yolo_server.Raft.Elected.{
  granted, granted-cons, answers, candidacy, elected_by_majority, elected_term,
}
use yolo_server.Raft.Progress.{contains_self}
use yolo_server.Raft.Quorum.{AreDistinct, AllIn}
use yolo_server.Raft.History.{
  Ballot, HasBallot, is_due, granters, cast_in, won_in, support, ballots, with_vote, wins,
  election_tick-due,
}
use yolo_server.Raft.Steps.{
  Step, Reach, here, next, votes, appends, submits, elects, beats, Reach-Kept,
}

length-with_vote :
    (o : Option RequestVoteReply) (p : Text) (ps : List Text)
    → length (with_vote o p ps) ≡ granted (o ∷ []) + length ps
length-with_vote none p ps = omega arith
length-with_vote (some r) p ps = ground arith

with_vote-AllIn :
    (o : Option RequestVoteReply) (p : Text) (ps ms : List Text)
    → contains ms p ≡ true
    → AllIn ps ms
    → AllIn (with_vote o p ps) ms
with_vote-AllIn none p ps ms c h = h
with_vote-AllIn (some r) p ps ms c h = if_both (λ xs. AllIn xs ms) r.vote_granted _ _ (c, h) h

contains-with_vote :
    (o : Option RequestVoteReply) (p q : Text) (ps : List Text)
    → text_eq q p ≡ false
    → contains ps q ≡ false
    → contains (with_vote o p ps) q ≡ false
contains-with_vote none p q ps ne h = h
contains-with_vote (some r) p q ps ne h = ground (arith, h)

with_vote-AreDistinct :
    (o : Option RequestVoteReply) (p : Text) (ps : List Text)
    → contains ps p ≡ false
    → AreDistinct ps
    → AreDistinct (with_vote o p ps)
with_vote-AreDistinct none p ps f d = d
with_vote-AreDistinct (some r) p ps f d = if_both AreDistinct r.vote_granted _ _ (f, d) d

module _ (E : Env) where
  open E use {World, now, draw_timeout, send_request_vote}

  length-granters :
      (ps : List Text) (args : RequestVoteArgs) (w : World)
      → length (granters E ps args w) ≡ granted (answers E ps args w)
  length-granters [] args w = refl
  length-granters (p ∷ ps) args w =
      let (reply, w1) = send_request_vote w p args in
      omega (
        arith,
        length-with_vote reply p (granters E ps args w1),
        granted-cons reply (answers E ps args w1),
        length-granters ps args w1,
      )

  -- The peers that vote are some of those that are asked, each once.
  granters-AllIn :
      (ps ms : List Text) (args : RequestVoteArgs) (w : World)
      → AllIn ps ms
      → AllIn (granters E ps args w) ms
  granters-AllIn [] ms args w h = tt
  granters-AllIn (p ∷ ps) ms args w h =
      let (reply, w1) = send_request_vote w p args in
      with_vote-AllIn reply p (granters E ps args w1) ms h.0 (granters-AllIn ps ms args w1 h.1)

  contains-granters :
      (ps : List Text) (args : RequestVoteArgs) (w : World) (q : Text)
      → contains ps q ≡ false
      → contains (granters E ps args w) q ≡ false
  contains-granters [] args w q h = refl
  contains-granters (p ∷ ps) args w q h =
      let (reply, w1) = send_request_vote w p args in
      contains-with_vote reply p q (granters E ps args w1) (ground arith)
        (contains-granters ps args w1 q (ground arith))

  granters-AreDistinct :
      (ps : List Text) (args : RequestVoteArgs) (w : World)
      → AreDistinct ps
      → AreDistinct (granters E ps args w)
  granters-AreDistinct [] args w h = tt
  granters-AreDistinct (p ∷ ps) args w h =
      let (reply, w1) = send_request_vote w p args in
      with_vote-AreDistinct reply p (granters E ps args w1) (contains-granters ps args w1 p h.0)
        (granters-AreDistinct ps args w1 h.1)

  -- What a victory rests on: the votes of a majority of the node's peers and itself, each peer
  -- once, and the node's own vote among the ballots.
  pub record IsVictory (id : Text) (peers : List Text) (bs : List Ballot) (x : ℕ × List Text)
      : Type 0 where
    pub majority : length peers + 1 < 2 * (1 + length x.1)
    pub members : AllIn x.1 peers
    pub distinct : AreDistinct peers → AreDistinct x.1
    pub own : HasBallot bs x.0 id

  won_in-IsVictory :
      {n n' : RaftNode} (bs : List Ballot) (x : ℕ × List Text)
      → IsValid n
      → (st : Step E n n') → won_in E st ≡ some x
      → IsVictory n.node_id n.peers (push (cast_in E st) bs) x
  won_in-IsVictory bs x v (votes args w w' reply e) h = absurd (none-ne-some x h)
  won_in-IsVictory bs x v (appends args w w' reply s e) h = absurd (none-ne-some x h)
  won_in-IsVictory bs x v (submits key value done room e) h = absurd (none-ne-some x h)
  won_in-IsVictory bs x v (beats w w' e) h = absurd (none-ne-some x h)
  won_in-IsVictory {n} {n'} bs x v (elects w w' room e) h =
      elim (Bool-cases (is_due E n w && is_leader n'.state)) [
        | inr lost ↦ absurd (none-ne-some x (rw lost at h))
        | inl won ↦
            let due : is_due E n w ≡ true = ground arith in
            let leads : n'.state ≡ leader = ground arith in
            let (last, at_end) = back-some n.logs (omega (arith, v.committed)) in
            let ran = election_tick-due E n w due e in
            let w1 = (now w).1 in
            let w2 = (now (draw_timeout w1).1).1 in
            let args = candidacy E n last in
            let voters = granters E n.peers args w2 in
            let same : (n'.current_term, voters) ≡ x =
              ap (λ o. (n'.current_term, support E n w1 o)) (sym at_end)
              ∙ some-injective _ _ (rw won at h) in
            subst (IsVictory n.node_id n.peers (push (cast_in E (elects w w' room e)) bs)) same
              (record {
                majority = omega (
                  arith,
                  elected_by_majority E n w1 at_end ran leads,
                  length-granters n.peers args w2,
                );
                members = granters-AllIn n.peers n.peers args w2 (contains_self n.peers);
                distinct = granters-AreDistinct n.peers args w2;
                own = rw due (inl (omega (arith, elected_term E n w1 at_end ran leads), refl));
              })
      ]

  -- Each victory of a run.
  pub wins-IsVictory :
      {n n' : RaftNode}
      → IsValid n
      → (r : Reach E n n') → All (IsVictory n.node_id n.peers (ballots E r)) (wins E r)
  wins-IsVictory v here = tt
  wins-IsVictory {n} {n'} v (next {m} r st) =
      let k = Reach-Kept E v r in
      let bs = push (cast_in E st) (ballots E r) in
      All-push (IsVictory n.node_id n.peers bs) (won_in E st) (wins E r)
        (λ x e.
          subst (λ id. IsVictory id n.peers bs x) k.same_id
            (subst (λ ps. IsVictory m.node_id ps bs x) k.peers_stay
              (won_in-IsVictory (ballots E r) x k.valid st e)))
        (All-map
          (λ x h. record {
            majority = h.majority;
            members = h.members;
            distinct = h.distinct;
            own =
                Any-push (λ (b : Ballot). (b.0 ≡ x.0) × (b.1 ≡ n.node_id)) (cast_in E st)
                  (ballots E r) h.own;
          })
          (wins E r) (wins-IsVictory v r))
