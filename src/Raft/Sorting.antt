-- ===== src/Raft/Sorting.antt =====
-- The choice of `newCommitIndex` in heartbeatLoop of raft/RaftNode.cpp, which sorts the match
-- indices.
use yolo_server.Prelude.{
  ℕ, zero, suc, ◌+◌, ◌*◌, ltb, ◌/◌, ◌≤◌, ◌<◌, ◌≡◌, refl, some, List, [], ◌∷◌, arith, length, All,
  All-map, All-get_elem?, get_elem?, get_elem?_lt, leb, if◌then◌else◌, Bool-cases, inl, inr, ◌∙◌,
  ap, sub64,
}
use yolo_server.Raft.Types.{RaftNode}
use yolo_server.Raft.Heartbeat.{insert_desc, sort_desc, match_indices, new_commit_index}

-- How many of the numbers are at least `bound`.
abbrev pub count_ge : ℕ → List ℕ → ℕ
count_ge bound [] = 0
count_ge bound (x ∷ xs) = let rest = count_ge bound xs in if leb bound x then suc rest else rest

length-insert_desc : (x : ℕ) (ys : List ℕ) → length (insert_desc x ys) ≡ suc (length ys)
unfolding insert_desc
length-insert_desc x [] = refl
length-insert_desc x (y ∷ ys) = ground (arith, length-insert_desc x ys)

pub length-sort_desc : (xs : List ℕ) → length (sort_desc xs) ≡ length xs
unfolding sort_desc
length-sort_desc [] = refl
length-sort_desc (x ∷ xs) = length-insert_desc x (sort_desc xs) ∙ ap suc (length-sort_desc xs)

count_ge-insert_desc :
    (bound x : ℕ) (ys : List ℕ) → count_ge bound (insert_desc x ys) ≡ count_ge bound (x ∷ ys)
unfolding insert_desc
count_ge-insert_desc bound x [] = refl
count_ge-insert_desc bound x (y ∷ ys) = ground (arith, count_ge-insert_desc bound x ys)

-- Sorting changes no count.
pub count_ge-sort_desc :
    (bound : ℕ) (xs : List ℕ) → count_ge bound (sort_desc xs) ≡ count_ge bound xs
unfolding sort_desc
count_ge-sort_desc bound [] = refl
count_ge-sort_desc bound (x ∷ xs) =
    ground (arith, count_ge-insert_desc bound x (sort_desc xs), count_ge-sort_desc bound xs)

-- Each number is at least the next.
abbrev pub IsDescending : List ℕ → Type 0
IsDescending [] = Unit
IsDescending (x ∷ xs) = All (λ y. y ≤ x) xs × IsDescending xs

All-insert_desc : (P : ℕ → Type 0) (x : ℕ) (ys : List ℕ) → P x → All P ys → All P (insert_desc x ys)
unfolding insert_desc
All-insert_desc P x [] p h = (p, tt)
All-insert_desc P x (y ∷ ys) p h = elim (Bool-cases (leb y x)) [
  | inl above ↦ rw above (p, h)
  | inr below ↦ rw below (h.0, All-insert_desc P x ys p h.1)
]

pub All-sort_desc : (P : ℕ → Type 0) (xs : List ℕ) → All P xs → All P (sort_desc xs)
unfolding sort_desc
All-sort_desc P [] h = tt
All-sort_desc P (x ∷ xs) h = All-insert_desc P x (sort_desc xs) h.0 (All-sort_desc P xs h.1)

insert_desc-IsDescending : (x : ℕ) (ys : List ℕ) → IsDescending ys → IsDescending (insert_desc x ys)
unfolding insert_desc
insert_desc-IsDescending x [] d = (tt, tt)
insert_desc-IsDescending x (y ∷ ys) d = elim (Bool-cases (leb y x)) [
  | inl above ↦ rw above ((ground arith, All-map (λ z h. ground arith) ys d.0), d)
  | inr below ↦
      rw below
        (All-insert_desc (λ z. z ≤ y) x ys (ground arith) d.0, insert_desc-IsDescending x ys d.1)
]

pub sort_desc-IsDescending : (xs : List ℕ) → IsDescending (sort_desc xs)
unfolding sort_desc
sort_desc-IsDescending [] = tt
sort_desc-IsDescending (x ∷ xs) =
    insert_desc-IsDescending x (sort_desc xs) (sort_desc-IsDescending xs)

-- In a descending list the first k + 1 numbers are at least the one at k.
count_ge-get_elem? :
    (xs : List ℕ) (k : ℕ) {x : ℕ}
    → IsDescending xs
    → get_elem? xs k ≡ some x
    → k + 1 ≤ count_ge x xs
count_ge-get_elem? [] k d e = absurd (ground arith)
count_ge-get_elem? (y ∷ ys) zero d e = ground arith
count_ge-get_elem? (y ∷ ys) (suc k) {x} d e =
    let below : x ≤ y = All-get_elem? (λ z. z ≤ y) ys k {x = x} d.0 e in
    ground (arith, count_ge-get_elem? ys k {x = x} d.1 e)

count_ge_above : (x y : ℕ) (ys : List ℕ) → All (λ z. z ≤ y) ys → y < x → count_ge x ys ≡ 0
count_ge_above x y [] h lt = refl
count_ge_above x y (z ∷ zs) h lt = ground (arith, count_ge_above x y zs h.1 lt)

-- Conversely a number that more than k of them reach is at most the one at k.
le-get_elem?_of_count_ge :
    (xs : List ℕ) (k x : ℕ) {y : ℕ}
    → IsDescending xs
    → get_elem? xs k ≡ some y
    → k < count_ge x xs
    → x ≤ y
le-get_elem?_of_count_ge [] k x d e h = absurd (ground arith)
le-get_elem?_of_count_ge (z ∷ zs) zero x {y} d e h = ground (arith, count_ge_above x z zs d.0)
le-get_elem?_of_count_ge (z ∷ zs) (suc k) x {y} d e h =
    le-get_elem?_of_count_ge zs k x {y = y} d.1 e (ground arith)

-- The place that is read lies inside the vector.
pub middle_lt : (k : ℕ) → sub64 (suc k) 1 / 2 < suc k
middle_lt k = omega arith

-- The greatest index that half of the servers, rounded up, hold.
pub record IsQuorumIndex (found : List ℕ) (c : ℕ) : Type 0 where
  pub held : (length found + 1) / 2 ≤ count_ge c found
  pub greatest : (x : ℕ) → (length found + 1) / 2 ≤ count_ge x found → x ≤ c

-- The candidate for the commit index always exists, and is the greatest index that half of the
-- servers, rounded up, hold by the leader's records (fewer than 2^64 servers).
pub new_commit_index-IsQuorumIndex :
    (n : RaftNode)
    → length (match_indices n) < 18446744073709551616
    → (c : ℕ) × (new_commit_index n ≡ some c) × IsQuorumIndex (match_indices n) c
unfolding new_commit_index match_indices
new_commit_index-IsQuorumIndex n small =
    let found = match_indices n in
    let k = sub64 (length found) 1 / 2 in
    let down = sort_desc-IsDescending found in
    let (c, there) = get_elem?_lt (sort_desc found) k (omega (arith, length-sort_desc found)) in
    (
      c,
      there,
      record {
        held = omega (
          arith,
          count_ge-get_elem? (sort_desc found) k {x = c} down there,
          count_ge-sort_desc c found,
        );
        greatest = λ x enough.
            le-get_elem?_of_count_ge (sort_desc found) k x {y = c} down there
              (omega (arith, count_ge-sort_desc x found));
      },
    )

length-match_indices : (n : RaftNode) → 1 ≤ length (match_indices n)
unfolding match_indices
length-match_indices n = omega arith

-- If the number of servers is even and exactly half of them hold the highest match index, that
-- index is taken as the new commit index, though they are no majority.
pub half_commits :
    (n : RaftNode) (k hi : ℕ)
    → length (match_indices n) ≡ 2 * k
    → 2 * k < 18446744073709551616
    → All (λ i. i ≤ hi) (match_indices n)
    → count_ge hi (match_indices n) ≡ k
    → (new_commit_index n ≡ some hi)
      × ¬ (length (match_indices n) < 2 * count_ge hi (match_indices n))
half_commits n k hi size small top half =
    let (c, chosen, q) = new_commit_index-IsQuorumIndex n (omega arith) in
    let not_above : c ≤ hi = elim (Bool-cases (ltb hi c)) [
      | inl above ↦
          absurd (some_held c (count_ge_above c hi (match_indices n) top (ground arith)) q.held)
      | inr fine ↦ ground arith
    ] in
    let not_below : hi ≤ c = q.greatest hi (omega arith) in
    let same : c ≡ hi = omega arith in (chosen ∙ ap some same, omega arith)
  where
    some_held :
        (c : ℕ)
        → count_ge c (match_indices n) ≡ 0
        → (length (match_indices n) + 1) / 2 ≤ count_ge c (match_indices n)
        → ⊥
    some_held c none_held held = omega (arith, length-match_indices n)
