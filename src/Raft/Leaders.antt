-- ===== src/Raft/Leaders.antt =====
-- How a node of raft/RaftNode.cpp comes to lead: only by an election that it wins.
use yolo_server.Prelude.{
  Option-cases, ◌≢◌, ℕ, ◌≡◌, refl, sym, ap, ◌∙◌, subst, false, ◌&&◌, none, some, List, arith, inl,
  inr, Text, Any, Bool-cases, Option-cases, ◌≢◌, Ensures, Ensures-map, ltb,
}
use mathlib.Core.Option.{some-ne-none, some-injective, none-ne-some, some-ne-none}
use yolo_server.Raft.Types.{leader, RaftNode, RequestVoteArgs, AppendEntriesArgs, is_leader}
use yolo_server.Raft.Env.{Env}
use yolo_server.Raft.Log.{back-some}
use yolo_server.Raft.Node.{
  handle_request_vote, handle_append_entries, submit_log, answer_vote, adopt_term, cast_vote,
  step_down,
}
use yolo_server.Raft.Election.{election_tick}
use yolo_server.Raft.Invariant.{IsValid, IsSound, LeadsOn}
use yolo_server.Raft.Voting.{handle_request_vote_lem}
use yolo_server.Raft.Accepting.{Answer, handle_append_entries-Answer}
use yolo_server.Raft.Submitting.{submit_log_lem}
use yolo_server.Raft.Replicating.{heartbeat_round-LeadsOn}
use yolo_server.Raft.History.{is_due, supporters, won_in, supporters, wins}
use yolo_server.Raft.Steps.{
  Step, Reach, here, next, votes, appends, submits, elects, beats, Reach-Kept, Ensures_some,
}

module _ (E : Env) where
  open E use {World, now}

  handle_request_vote-LeadsOn :
      (n : RaftNode) (args : RequestVoteArgs) (w : World)
      → IsValid n
      → Ensures (λ r. LeadsOn n r.1) (handle_request_vote E n args w)
  unfolding answer_vote adopt_term cast_vote step_down
  handle_request_vote-LeadsOn n args w v =
      let (last, at_end) = back-some n.logs (omega (arith, v.committed)) in
      rw (handle_request_vote_lem E n args w at_end) (ground arith)

  handle_append_entries-LeadsOn :
      (n : RaftNode) (args : AppendEntriesArgs) (w : World)
      → IsValid n
      → IsSound n args
      → Ensures (λ r. LeadsOn n r.1) (handle_append_entries E n args w)
  unfolding handle_append_entries
  handle_append_entries-LeadsOn n args w v s = elim (Bool-cases (ltb args.term n.current_term)) [
    | inl stale ↦ rw stale (λ h. (h, refl))
    | inr current ↦
        Ensures-map (Answer E n args w) (λ r. LeadsOn n r.1)
          (λ r a h. absurd (ground (arith, a.heard_state (ground arith))))
          (handle_append_entries E n args w) (handle_append_entries-Answer E n args w v s)
  ]

  submit_log-LeadsOn :
      (n : RaftNode) (key value : Text)
      → IsValid n
      → Ensures (λ r. LeadsOn n r.1) (submit_log n key value)
  submit_log-LeadsOn n key value v = rw (submit_log_lem n key value v) (ground arith)

  -- The victory is of the term in which the node leads.
  won_in-term :
      {n n' : RaftNode} (x : ℕ × List Text) (st : Step E n n')
      → won_in E st ≡ some x
      → x.0 ≡ n'.current_term
  won_in-term x (votes args w w' reply e) h = absurd (none-ne-some x h)
  won_in-term x (appends args w w' reply s e) h = absurd (none-ne-some x h)
  won_in-term x (submits key value done room e) h = absurd (none-ne-some x h)
  won_in-term x (beats w w' e) h = absurd (none-ne-some x h)
  won_in-term {n} {n'} x (elects w w' room e) h =
      elim (Bool-cases (is_due E n w && is_leader n'.state)) [
        | inl won ↦ sym (
            ap (λ (y : ℕ × List Text). y.0)
              (some-injective (n'.current_term, supporters E n (now w).1) x (rw won at h)))
        | inr lost ↦ absurd (none-ne-some x (rw lost at h))
      ]

  -- An election that is not due leaves the node as it is.
  election_tick-early :
      (n : RaftNode) (w : World) → is_due E n w ≡ false → election_tick E n w ≡ some (n, (now w).1)
  unfolding election_tick
  election_tick-early n w early = rw early refl

  -- A call that wins no election makes no leader.
  Step-LeadsOn :
      {n n' : RaftNode} → IsValid n → (st : Step E n n') → won_in E st ≡ none → LeadsOn n n'
  Step-LeadsOn v (votes args w w' reply e) h =
      Ensures_some _ (handle_request_vote-LeadsOn _ args w v) e
  Step-LeadsOn v (appends args w w' reply s e) h =
      Ensures_some _ (handle_append_entries-LeadsOn _ args w v s) e
  Step-LeadsOn v (submits key value done room e) h =
      Ensures_some _ (submit_log-LeadsOn _ key value v) e
  Step-LeadsOn v (beats w w' e) h = Ensures_some _ (heartbeat_round-LeadsOn E _ w v) e
  Step-LeadsOn {n} {n'} v (elects w w' room e) h = elim (Bool-cases (is_due E n w)) [
    | inl due ↦ λ leads. absurd (some-ne-none _ (rw (due, leads) at h))
    | inr early ↦
        let same : (n, (now w).1) ≡ (n', w') =
          some-injective _ _ (sym (election_tick-early n w early) ∙ e) in
        subst (λ (x : RaftNode × World). LeadsOn n x.0) same (λ leads. (leads, refl))
  ]

  -- A node that leads, and did not at the start of the run, has won an election of its term.
  pub leads-wins :
      {n n' : RaftNode}
      → IsValid n
      → n.state ≢ leader
      → (r : Reach E n n') → n'.state ≡ leader
      → Any (λ (x : ℕ × List Text). x.0 ≡ n'.current_term) (wins E r)
  leads-wins v not_yet here leads = absurd (not_yet leads)
  leads-wins {n} {n'} v not_yet (next {m} r st) leads =
      let vm = (Reach-Kept E v r).valid in
      elim (Option-cases (won_in E st)) [
        | inr (x, won) ↦ rw won (inl (won_in-term x st won))
        | inl quiet ↦
            let (led, same) = Step-LeadsOn vm st quiet leads in
            rw (quiet, same) (leads-wins v not_yet r led)
      ]
