-- ===== src/Raft/Submitting.antt =====
-- submitLog of raft/RaftNode.cpp.
use yolo_server.Prelude.{
  refl, ◌%◌, ℕ, suc, ◌+◌, ◌≤◌, ◌<◌, ◌≡◌, refl, true, false, some, List, [], ◌∷◌, ◌++◌, arith,
  length, length-append, All, take-append, Text, if◌then◌else◌, Bool-cases, inl, inr,
}
use yolo_server.Prelude.Assoc.{Assoc, values}
use yolo_server.Raft.Types.{LogEntry, RaftNode, is_leader}
use yolo_server.Raft.Node.{submit_log, new_entry}
use yolo_server.Raft.Log.{IndexedFrom-append, back-some, back-IndexedFrom}
use yolo_server.Raft.Invariant.{IsValid, HasNext, Kept, Kept-refl}
use yolo_server.Prelude.{Ensures}

-- On a valid leader submitLog appends one entry of the current term whose index is its position,
-- and changes nothing else; on any other valid node it returns false and changes nothing.
pub submit_log_lem :
    (n : RaftNode) (key value : Text)
    → IsValid n
    → submit_log n key value ≡ (
        if is_leader n.state
        then some (
          true,
          record n { logs = n.logs ++ new_entry n.current_term (length n.logs) key value ∷ [] },
        )
        else some (false, n))
unfolding submit_log
submit_log_lem n key value v =
    let (last, at_end) = back-some n.logs (omega (arith, v.committed)) in
    let place : (last.index + 1) % 18446744073709551616 ≡ length n.logs =
      omega (arith, v.fits, back-IndexedFrom n.logs {last = last} v.indexed at_end) in
    rw (at_end, place)

HasNext-weaken :
    (m : Assoc Text ℕ) (size more : ℕ) (ps : List Text)
    → size ≤ more
    → All (HasNext m size) ps
    → All (HasNext m more) ps
HasNext-weaken m size more [] le h = tt
HasNext-weaken m size more (p ∷ ps) le ((i, there, low, high), rest) =
    ((i, there, low, omega arith), HasNext-weaken m size more ps le rest)

below_weaken :
    (size more : ℕ) (xs : List ℕ) → size ≤ more → All (λ i. i < size) xs → All (λ i. i < more) xs
below_weaken size more [] le h = tt
below_weaken size more (x ∷ xs) le h = (omega arith, below_weaken size more xs le h.1)

submitted-Kept :
    (n : RaftNode) (e : LogEntry)
    → IsValid n
    → e.index ≡ length n.logs
    → length n.logs + 1 < 18446744073709551616
    → Kept n (record n { logs = n.logs ++ e ∷ [] })
submitted-Kept n e v at room =
    let longer : length (n.logs ++ e ∷ []) ≡ length n.logs + 1 =
      omega (arith, length-append n.logs (e ∷ [])) in
    record {
      valid = record {
        indexed = IndexedFrom-append 0 n.logs (e ∷ []) v.indexed (omega arith);
        committed = omega (arith, v.committed);
        applied = v.applied;
        fits = omega arith;
        tracked = v.tracked;
        ready = λ h. record {
          next_known =
              HasNext-weaken n.next_index (length n.logs) (length (n.logs ++ e ∷ [])) n.peers
                (omega arith) (v.ready h).next_known;
          match_below =
              below_weaken (length n.logs) (length (n.logs ++ e ∷ [])) (values n.match_index)
                (omega arith) (v.ready h).match_below;
        };
      };
      term_grows = omega arith;
      vote_stays = inr (refl, inr refl);
      commit_grows = omega arith;
      prefix = take-append (suc n.commit_index) n.logs (e ∷ []) v.committed;
      same_id = refl;
      peers_stay = refl;
    }

-- submitLog returns and keeps the invariant, the term, the commit index and the committed log.
pub submit_log-Kept :
    (n : RaftNode) (key value : Text)
    → IsValid n
    → length n.logs + 1 < 18446744073709551616
    → Ensures (λ r. Kept n r.1) (submit_log n key value)
submit_log-Kept n key value v room =
    rw (submit_log_lem n key value v) (elim (Bool-cases (is_leader n.state)) [
      | inl leads ↦
          rw leads
            (submitted-Kept n (new_entry n.current_term (length n.logs) key value) v refl room)
      | inr not_leader ↦ rw not_leader (Kept-refl n v)
    ])
