-- ===== src/Raft/Leading.antt =====
-- The parts of heartbeatLoop in raft/RaftNode.cpp that change the leader.
use yolo_server.Prelude.{
  refl, ℕ, ◌-◌, ◌/◌, ◌≤◌, ◌<◌, ◌≡◌, refl, true, some, arith, length, length-drop, drop, All,
  All-get_elem?, get_elem?_lt, ltb, ◌==◌, Bool-cases, inl, inr, ◌∙◌, sub64, add64, Text,
}
use yolo_server.Prelude.Assoc.{values, insert, text_key}
use yolo_server.Raft.Types.{leader, RaftNode}
use yolo_server.Raft.Env.{Env}
use yolo_server.Raft.Applying.{commit_to}
use yolo_server.Raft.Invariant.{IsValid, Kept, Kept-refl, Kept-trans, contains}
use yolo_server.Prelude.{Ensures}
use yolo_server.Raft.Progress.{set_next-Kept, set_match-Kept}
use yolo_server.Raft.Sorting.{length-sort_desc, All-sort_desc, middle_lt}
use yolo_server.Raft.Heartbeat.{
  index_of, sort_desc, match_indices, new_commit_index, collected_entries, record_success,
  step_back, commit_if_current, advance_leader_commit,
}

-- What a pass over the peers relies on.
pub record IsLeading (n : RaftNode) : Type 0 where
  pub valid : IsValid n
  pub leads : n.state ≡ leader

-- The candidate for the commit index lies inside the log.
new_commit_index_lt :
    (n : RaftNode) → IsLeading n → (c : ℕ) × (new_commit_index n ≡ some c) × (c < length n.logs)
unfolding new_commit_index match_indices
new_commit_index_lt n l =
    let found = match_indices n in
    let k = sub64 (length found) 1 / 2 in
    let (c, there) =
      get_elem?_lt (sort_desc found) k
        (omega (arith, length-sort_desc found, middle_lt (length (values n.match_index)))) in
    let below : All (λ i. i < length n.logs) found =
      (omega (arith, l.valid.committed, l.valid.fits), (l.valid.ready l.leads).match_below) in
    (
      c,
      there,
      All-get_elem? (λ i. i < length n.logs) (sort_desc found) k {x = c}
          (All-sort_desc (λ i. i < length n.logs) found below) there,
    )

-- A step that keeps the node and lets it lead on with the same peers and log.
pub record Led (n n' : RaftNode) : Type 0 where
  pub kept : Kept n n'
  pub same_state : n'.state ≡ n.state
  pub same_peers : n'.peers ≡ n.peers
  pub same_term : n'.current_term ≡ n.current_term
  pub same_logs : n'.logs ≡ n.logs

pub Led-refl : (n : RaftNode) → IsValid n → Led n n
Led-refl n v = record {
  kept = Kept-refl n v;
  same_state = refl;
  same_peers = refl;
  same_term = refl;
  same_logs = refl;
}

pub Led-trans : {a b c : RaftNode} → Led a b → Led b c → Led a c
Led-trans h k = record {
  kept = Kept-trans h.kept k.kept;
  same_state = k.same_state ∙ h.same_state;
  same_peers = k.same_peers ∙ h.same_peers;
  same_term = k.same_term ∙ h.same_term;
  same_logs = k.same_logs ∙ h.same_logs;
}

-- After a success the leader takes the peer to hold its whole log.
pub record_success_lem :
    (n : RaftNode) (p : Text) (next : ℕ)
    → 1 ≤ next
    → next ≤ length n.logs
    → length n.logs < 18446744073709551616
    → record_success n p next ≡ record n {
      next_index = insert p (length n.logs) n.next_index;
      match_index = insert p (length n.logs - 1) n.match_index;
    }
unfolding record_success collected_entries
record_success_lem n p next low high small =
    let whole : add64 next (length (drop next n.logs)) ≡ length n.logs =
      omega (arith, length-drop next n.logs) in
    let last : sub64 (length n.logs) 1 ≡ length n.logs - 1 = omega arith in rw (whole, last)

pub record_success-Led :
    (n : RaftNode) (p : Text) (next : ℕ)
    → IsValid n
    → contains n.peers p ≡ true
    → 1 ≤ next
    → next ≤ length n.logs
    → Led n (record_success n p next)
record_success-Led n p next v c low high =
    let moved = set_next-Kept n p (length n.logs) v (omega arith) (omega arith) in
    rw (record_success_lem n p next low high v.fits) (record {
      kept = Kept-trans moved (
          set_match-Kept (record n { next_index = insert p (length n.logs) n.next_index }) p
            (length n.logs - 1) moved.valid c (omega arith));
      same_state = refl;
      same_peers = refl;
      same_term = refl;
      same_logs = refl;
    })

pub step_back-Led :
    (n : RaftNode) (p : Text)
    → IsValid n
    → index_of p n.next_index ≤ length n.logs
    → Led n (step_back n p)
unfolding step_back
step_back-Led n p v high = elim (Bool-cases (ltb 1 (index_of p n.next_index))) [
  | inl more ↦ rw more (record {
    kept = set_next-Kept n p (index_of p n.next_index - 1) v (ground arith) (ground arith);
    same_state = refl;
    same_peers = refl;
    same_term = refl;
    same_logs = refl;
  })
  | inr first ↦ rw first (Led-refl n v)
]

raised-Led :
    (n : RaftNode) (c : ℕ)
    → IsValid n
    → n.commit_index ≤ c
    → c < length n.logs
    → Led n (record n { commit_index = c; last_applied = c })
raised-Led n c v le h = record {
  kept = record {
    valid = record {
      indexed = v.indexed;
      committed = h;
      applied = refl;
      fits = v.fits;
      tracked = v.tracked;
      ready = λ s. record {
        next_known = (v.ready s).next_known;
        match_below = (v.ready s).match_below;
      };
    };
    term_grows = omega arith;
    vote_stays = inr (refl, inr refl);
    commit_grows = le;
    prefix = refl;
    same_id = refl;
    peers_stay = refl;
  };
  same_state = refl;
  same_peers = refl;
  same_term = refl;
  same_logs = refl;
}

module _ (E : Env) where
  open E use {World, send_append_entries}

  pub commit_if_current-Led :
      (n : RaftNode) (c : ℕ) (w : World)
      → IsValid n
      → c < length n.logs
      → Ensures (λ r. Led n r.0) (commit_if_current E n c w)
  unfolding commit_if_current
  commit_if_current-Led n c w v h = elim (Bool-cases (ltb n.commit_index c)) [
    | inl above ↦
        let (entry, there) = get_elem?_lt n.logs c h in
        elim (Bool-cases (entry.term == n.current_term)) [
          | inl current ↦
              rw (above, there, current, commit_to E n c w v.applied (ground arith) h)
                (raised-Led n c v (ground arith) h)
          | inr older ↦ rw (above, there, older) (Led-refl n v)
        ]
    | inr not_above ↦ rw not_above (Led-refl n v)
  ]

  pub advance_leader_commit-Led :
      (n : RaftNode) (w : World)
      → IsLeading n
      → Ensures (λ r. Led n r.0) (advance_leader_commit E n w)
  unfolding advance_leader_commit
  advance_leader_commit-Led n w l =
      let (c, chosen, below) = new_commit_index_lt n l in
      rw chosen (commit_if_current-Led n c w l.valid below)
