-- ===== src/Raft/Steps.antt =====
-- A node of raft/RaftNode.h over time: the methods of the RPC layer, of the client and of the two
-- background threads, each under the mutex, in any order.
use yolo_server.Prelude.{
  subst, ◌+◌, ◌<◌, ◌≡◌, ◌≢◌, refl, true, Bool, Option, some, [], List, arith, length, Text, inl,
  inr, ◌∙◌, sym,
}
use yolo_server.Raft.Types.{
  RaftNode, RequestVoteArgs, RequestVoteReply, AppendEntriesArgs, AppendEntriesReply,
}
use yolo_server.Raft.Env.{Env}
use yolo_server.Raft.Node.{init, submit_log, handle_request_vote, handle_append_entries}
use yolo_server.Raft.Election.{election_tick}
use yolo_server.Raft.Heartbeat.{heartbeat_round}
use yolo_server.Raft.Log.{back-some}
use yolo_server.Raft.Invariant.{IsValid, IsSound, Kept, Kept-refl, Kept-trans, VoteStep}
use yolo_server.Prelude.{Ensures}
use yolo_server.Raft.Voting.{handle_request_vote-Kept, vote_granted_iff}
use yolo_server.Raft.Following.{handle_append_entries-Kept}
use yolo_server.Raft.Submitting.{submit_log-Kept}
use yolo_server.Raft.Campaign.{election_tick-Kept}
use yolo_server.Raft.Replicating.{heartbeat_round-Kept}

-- One method call that returns. Requests are sound, and the counters do not wrap around.
pub data Step (E : Env) (n n' : RaftNode) : Type 0 where
  votes :
      (args : RequestVoteArgs) (w w' : E.World) (reply : RequestVoteReply)
      → handle_request_vote E n args w ≡ some (reply, n', w')
      → Step E n n'
  appends :
      (args : AppendEntriesArgs) (w w' : E.World) (reply : AppendEntriesReply)
      → IsSound n args
      → handle_append_entries E n args w ≡ some (reply, n', w')
      → Step E n n'
  submits :
      (key value : Text) (done : Bool)
      → length n.logs + 1 < 18446744073709551616
      → submit_log n key value ≡ some (done, n')
      → Step E n n'
  elects :
      (w w' : E.World)
      → n.current_term + 1 < 18446744073709551616
      → election_tick E n w ≡ some (n', w')
      → Step E n n'
  beats : (w w' : E.World) → heartbeat_round E n w ≡ some (n', w') → Step E n n'

pub data Reach (E : Env) (n : RaftNode) : RaftNode → Type 0 where
  here : Reach E n n
  next : {m n' : RaftNode} → Reach E n m → Step E m n' → Reach E n n'

pub Ensures_some {ℓ} :
    {A : Type ℓ} (P : A → Type 0) {o : Option A} {x : A} → Ensures P o → o ≡ some x → P x
Ensures_some P h e = subst (Ensures P) e h

pub Step-Kept : (E : Env) {n n' : RaftNode} → IsValid n → Step E n n' → Kept n n'
Step-Kept E {n} {n'} v (votes args w w' reply e) =
    Ensures_some (λ r. Kept n r.1) (handle_request_vote-Kept E n args w v) e
Step-Kept E {n} {n'} v (appends args w w' reply s e) =
    Ensures_some (λ r. Kept n r.1) (handle_append_entries-Kept E n args w v s) e
Step-Kept E {n} {n'} v (submits key value done room e) =
    Ensures_some (λ r. Kept n r.1) (submit_log-Kept n key value v room) e
Step-Kept E {n} {n'} v (elects w w' room e) =
    Ensures_some (λ r. Kept n r.0) (election_tick-Kept E n w v room) e
Step-Kept E {n} {n'} v (beats w w' e) =
    Ensures_some (λ r. Kept n r.0) (heartbeat_round-Kept E n w v) e

-- Over any sequence of calls of a node from a valid state (sound AppendEntries requests, no wrap
-- of the counters) the invariant holds, term and commit index only grow, a vote given in a term
-- stays in it, and the committed prefix of the log is never changed.
pub Reach-Kept : (E : Env) {n n' : RaftNode} → IsValid n → Reach E n n' → Kept n n'
Reach-Kept E {n} v here = Kept-refl n v
Reach-Kept E v (next r st) = let k = Reach-Kept E v r in Kept-trans k (Step-Kept E k.valid st)

pub init-IsValid :
    (E : Env) (id : Text) (peers : List Text) (w : E.World) → IsValid (init E id peers w).0
unfolding init
init-IsValid E id peers w = record {
  indexed = (refl, tt);
  committed = omega arith;
  applied = refl;
  fits = omega arith;
  tracked = tt;
  ready = λ h. cc;
}

-- A node that is constructed and then driven in any order stays valid.
pub run-IsValid :
    (E : Env) (id : Text) (peers : List Text) (w : E.World) {n : RaftNode}
    → Reach E (init E id peers w).0 n
    → IsValid n
run-IsValid E id peers w r = (Reach-Kept E (init-IsValid E id peers w) r).valid

pub granted_fields :
    (E : Env) (n : RaftNode) (a : RequestVoteArgs) (w : E.World) {n' : RaftNode} {w' : E.World}
    {r : RequestVoteReply}
    → IsValid n
    → handle_request_vote E n a w ≡ some (r, n', w')
    → r.vote_granted ≡ true
    → (n'.voted_for ≡ a.candidate_id) × (n'.current_term ≡ a.term)
granted_fields E n a w {n'} {w'} {r} v e g =
    let (last, at_end) = back-some n.logs (omega (arith, v.committed)) in
    (Ensures_some _ (vote_granted_iff E n a w at_end) e).1 g

-- Two votes that a valid node grants for requests of the same term go to the same candidate, if the
-- first candidate's id is not empty, after any sequence of calls in between in which the
-- AppendEntries requests are sound (their entries carry the indices of their places, contradict no
-- committed entry of the node, and keep the log shorter than 2^64) and neither the term nor the
-- length of the log wraps around.
pub one_vote_per_term :
    (E : Env) (n n2 : RaftNode) (a b : RequestVoteArgs) (w u : E.World) {n1 n3 : RaftNode}
    {w1 u1 : E.World} {r s : RequestVoteReply}
    → IsValid n
    → handle_request_vote E n a w ≡ some (r, n1, w1)
    → r.vote_granted ≡ true
    → Reach E n1 n2
    → handle_request_vote E n2 b u ≡ some (s, n3, u1)
    → s.vote_granted ≡ true
    → a.term ≡ b.term
    → a.candidate_id ≢ []
    → a.candidate_id ≡ b.candidate_id
one_vote_per_term E n n2 a b w u {n1} {n3} {w1} {u1} {r} {s} v first given between second given'
      same named =
    let v1 = (Step-Kept E v (votes a w w1 r first)).valid in
    let v2 = (Reach-Kept E v1 between).valid in
    conclude (granted_fields E n a w v first given) (granted_fields E n2 b u v2 second given')
      (Reach-Kept E v1 (next between (votes b u u1 s second))).vote_stays
  where
    conclude :
        (n1.voted_for ≡ a.candidate_id) × (n1.current_term ≡ a.term)
        → (n3.voted_for ≡ b.candidate_id) × (n3.current_term ≡ b.term)
        → VoteStep n1.current_term n1.voted_for n3.current_term n3.voted_for
        → a.candidate_id ≡ b.candidate_id
    conclude f g (inl later) = absurd (omega arith)
    conclude f g (inr (e, inl none_yet)) = absurd (named (sym f.0 ∙ none_yet))
    conclude f g (inr (e, inr kept)) = sym f.0 ∙ sym kept ∙ g.0
