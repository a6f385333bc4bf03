-- ===== src/Raft/Replicating.antt =====
-- heartbeatLoop of raft/RaftNode.cpp, against the invariant of the node.
use yolo_server.Prelude.{
  ℕ, ◌≤◌, ◌≡◌, refl, Bool, true, false, none, some, Option, List, [], ◌∷◌, arith, length, All,
  get_elem?_lt, ltb, if◌then◌else◌, Bool-cases, inl, inr, ◌∙◌, sym, subst, sub64, ◌>>=◌, Text,
}
use yolo_server.Prelude.Assoc.{insert, text_key}
use yolo_server.Raft.Types.{RaftState, leader, follower, RaftNode, AppendEntriesReply, is_leader}
use yolo_server.Raft.Env.{Env}
use yolo_server.Raft.Node.{step_down}
use yolo_server.Raft.Invariant.{
  IsValid, HasNext, Kept, Kept-refl, Kept-trans, retouch-Kept, contains, LeadsOn, LeadsOn-trans,
}
use yolo_server.Prelude.{Ensures-map, Ensures}
use yolo_server.Raft.Progress.{
  index_of-HasNext, index_of-insert, set_next-Kept, contains_All, contains_self,
}
use yolo_server.Raft.Leading.{
  IsLeading, Led, Led-refl, Led-trans, advance_leader_commit-Led, record_success-Led, step_back-Led,
}
use yolo_server.Raft.Heartbeat.{
  index_of, touch, record_success, advance_leader_commit, handle_reply, heartbeat_peer,
  heartbeat_peers, heartbeat_round, heartbeat_args, going_on,
}

module _ (E : Env) where
  open E use {World, send_append_entries}

  -- A reply leaves a valid node, which still leads the same peers if the pass goes on.
  abbrev Passed : RaftNode → Bool × RaftNode × World → Type 0
  Passed n (true, n', w) = Led n n'
  Passed n (false, n', w) = Kept n n' × (n'.state ≡ follower)

  going-Passed :
      (n m : RaftNode) (r : Option (RaftNode × World))
      → Led n m
      → Ensures (λ x. Led m x.0) r
      → Ensures (Passed n) (r >>= λ x. some (going_on E x))
  going-Passed n m none l h = h
  going-Passed n m (some (m', w)) l h = Led-trans l h

  handle_reply-Passed :
      (n : RaftNode) (p : Text) (next : ℕ) (reply : Option AppendEntriesReply) (w : World)
      → IsLeading n
      → contains n.peers p ≡ true
      → 1 ≤ next
      → next ≤ length n.logs
      → index_of p n.next_index ≤ length n.logs
      → Ensures (Passed n) (handle_reply E n p next reply w)
  unfolding handle_reply
  handle_reply-Passed n p next none w l c low high stored = Led-refl n l.valid
  handle_reply-Passed n p next (some reply) w l c low high stored =
      elim (Bool-cases reply.success) [
        | inl done ↦
            let m = record_success n p next in
            let led = record_success-Led n p next l.valid c low high in
            rw done (
              going-Passed n m (advance_leader_commit E m w) led (
                advance_leader_commit-Led E m w
                  (record { valid = led.kept.valid; leads = led.same_state ∙ l.leads })))
        | inr failed ↦ elim (Bool-cases (ltb n.current_term reply.term)) [
          | inl newer ↦
              rw (failed, newer, step_down)
                (
                  retouch-Kept n reply.term [] follower n.election_timeout_ms n.last_heartbeat_time
                      l.valid (inl (ground arith)) (λ h. cc),
                  refl,
                )
          | inr not_newer ↦ rw (failed, not_newer) (step_back-Led n p l.valid stored)
        ]
      ]

  Passed-trans :
      {n n1 : RaftNode} → Led n n1 → (x : Bool × RaftNode × World) → Passed n1 x → Passed n x
  Passed-trans l (true, m, w) h = Led-trans l h
  Passed-trans l (false, m, w) h = (Kept-trans l.kept h.0, h.1)

  -- One exchange with a peer of a leader reads nothing past the end of the log.
  heartbeat_peer-Passed :
      (n : RaftNode) (p : Text) (w : World)
      → IsLeading n
      → contains n.peers p ≡ true
      → Ensures (Passed n) (heartbeat_peer E n p w)
  unfolding heartbeat_peer
  heartbeat_peer-Passed n p w l c =
      let next = index_of p n.next_index in
      let (low, high) = index_of-HasNext n.next_index (length n.logs) p (
        contains_All (HasNext n.next_index (length n.logs)) n.peers p
          (l.valid.ready l.leads).next_known c) in
      let n1 = record n { next_index = insert p next n.next_index } in
      let touched : Led n n1 = record {
        kept = set_next-Kept n p next l.valid low high;
        same_state = refl;
        same_peers = refl;
        same_term = refl;
        same_logs = refl;
      } in
      let (prev, there) = get_elem?_lt n.logs (sub64 next 1) (omega (arith, l.valid.fits)) in
      let asked = heartbeat_args (record n { next_index = touch p n.next_index }) next prev in
      let (reply, w1) = send_append_entries w p asked in
      rw there (
        Ensures-map (Passed n1) (Passed n) (Passed-trans touched)
          (handle_reply E n1 p next reply w1)
          (handle_reply-Passed n1 p next reply w1
            (record { valid = touched.kept.valid; leads = l.leads }) c low high
            (rw (index_of-insert n.next_index p next) high)))

  -- The node afterwards is one that the pass kept, and it leads no new term.
  abbrev Beaten : RaftNode → RaftNode × World → Type 0
  Beaten n r = Kept n r.0 × LeadsOn n r.0

  heartbeat_peers-Beaten :
      (ps : List Text) (n : RaftNode) (w : World)
      → IsLeading n
      → All (λ q. contains n.peers q ≡ true) ps
      → Ensures (Beaten n) (heartbeat_peers E ps n w)
  unfolding heartbeat_peers
  heartbeat_peers-Beaten [] n w l c = (Kept-refl n l.valid, λ h. (h, refl))
  heartbeat_peers-Beaten (p ∷ ps) n w l c =
      go (heartbeat_peers-Beaten ps) (heartbeat_peer E n p w) (heartbeat_peer-Passed n p w l c.0)
    where
      go :
          ((n1 : RaftNode) (w1 : World)
            → IsLeading n1
            → All (λ q. contains n1.peers q ≡ true) ps
            → Ensures (Beaten n1) (heartbeat_peers E ps n1 w1))
          → (r : Option (Bool × RaftNode × World)) → Ensures (Passed n) r
          → Ensures (Beaten n) (elim r [
            | none ↦ none
            | some (true, n1, w1) ↦ heartbeat_peers E ps n1 w1
            | some (false, n1, w1) ↦ some (n1, w1)
          ])
      go rest none h = h
      go rest (some (false, n1, w1)) (h, down) = (h, λ leads. cc)
      go rest (some (true, n1, w1)) h =
          Ensures-map (Beaten n1) (Beaten n)
            (λ x k. (
              Kept-trans h.kept k.0,
              LeadsOn-trans n n1 x.0 (λ e. (sym h.same_state ∙ e, h.same_term)) k.1,
            ))
            (heartbeat_peers E ps n1 w1)
            (rest n1 w1 (record { valid = h.kept.valid; leads = h.same_state ∙ l.leads })
              (subst (λ qs. All (λ q. contains qs q ≡ true) ps) (sym h.same_peers) c.1))

  heartbeat_round-Beaten :
      (n : RaftNode) (w : World) → IsValid n → Ensures (Beaten n) (heartbeat_round E n w)
  unfolding heartbeat_round
  heartbeat_round-Beaten n w v = by_state n.state refl
    where
      by_state :
          (st : RaftState)
          → n.state ≡ st
          → Ensures (Beaten n) (if is_leader st then heartbeat_peers E n.peers n w else some (n, w))
      by_state leader e =
          heartbeat_peers-Beaten n.peers n w (record { valid = v; leads = e })
            (contains_self n.peers)
      by_state _ e = (Kept-refl n v, λ h. (h, refl))

  -- A pass of heartbeatLoop on a valid node returns whatever the peers answer (no vector is read
  -- past its end), and keeps the invariant; the term and the commit index do not shrink, a vote
  -- given in a term stays in it, and the committed part of the log is as before.
  pub heartbeat_round-Kept :
      (n : RaftNode) (w : World) → IsValid n → Ensures (λ r. Kept n r.0) (heartbeat_round E n w)
  heartbeat_round-Kept n w v =
      Ensures-map (Beaten n) (λ r. Kept n r.0) (λ r h. h.0) (heartbeat_round E n w)
        (heartbeat_round-Beaten n w v)

  pub heartbeat_round-LeadsOn :
      (n : RaftNode) (w : World) → IsValid n → Ensures (λ r. LeadsOn n r.0) (heartbeat_round E n w)
  heartbeat_round-LeadsOn n w v =
      Ensures-map (Beaten n) (λ r. LeadsOn n r.0) (λ r h. h.1) (heartbeat_round E n w)
        (heartbeat_round-Beaten n w v)
