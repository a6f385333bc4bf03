-- ===== src/Raft/Quorum.antt =====
-- Two majorities of one cluster have a member in common. The members are the ids that
-- raft/RaftNode.cpp keeps in m_peers, and the node's own.
use yolo_server.Prelude.{
  suc, ◌+◌, ◌≤◌, ◌<◌, ◌≡◌, true, false, List, [], ◌∷◌, arith, length, All, Text, text_eq,
  text_eq_iff, Bool-cases, inl, inr, if◌then◌else◌,
}
use yolo_server.Raft.Invariant.{contains}

-- No id stands twice in the list.
abbrev pub AreDistinct : List Text → Type 0
AreDistinct [] = Unit
AreDistinct (p ∷ ps) = (contains ps p ≡ false) × AreDistinct ps

-- Each id of the first list is in the second.
abbrev pub AllIn : List Text → List Text → Type 0
AllIn ps ms = All (λ p. contains ms p ≡ true) ps

-- The list without the first occurrence of an id.
abbrev drop_first : Text → List Text → List Text
drop_first p [] = []
drop_first p (m ∷ ms) = let rest = drop_first p ms in if text_eq p m then ms else m ∷ rest

length-drop_first :
    (p : Text) (ms : List Text) → contains ms p ≡ true → suc (length (drop_first p ms)) ≡ length ms
length-drop_first p [] h = cc
length-drop_first p (m ∷ ms) h = ground (arith, length-drop_first p ms)

contains-drop_first :
    (p q : Text) (ms : List Text)
    → text_eq q p ≡ false
    → contains ms q ≡ true
    → contains (drop_first p ms) q ≡ true
contains-drop_first p q [] ne h = cc
contains-drop_first p q (m ∷ ms) ne h = elim (Bool-cases (text_eq p m)) [
  | inl same ↦ rw same (ground (arith, text_eq_iff p m))
  | inr other ↦ rw other (ground (arith, contains-drop_first p q ms ne))
]

-- Distinct members are not more than there are members.
length_le : (ps ms : List Text) → AreDistinct ps → AllIn ps ms → length ps ≤ length ms
length_le [] ms d h = omega arith
length_le (p ∷ ps) ms d h =
    omega (arith, length-drop_first p ms h.0, length_le ps (drop_first p ms) d.1 (still ps d.0 h.1))
  where
    still : (qs : List Text) → contains qs p ≡ false → AllIn qs ms → AllIn qs (drop_first p ms)
    still [] ne k = tt
    still (q ∷ qs) ne k = (
      contains-drop_first p q ms (ground (arith, text_eq_iff p q, text_eq_iff q p)) k.0,
      still qs (ground arith) k.1,
    )

-- Two lists of distinct members that have together more than there are members share one.
pub quorums_meet :
    (xs ys ms : List Text)
    → AreDistinct xs
    → AreDistinct ys
    → AllIn xs ms
    → AllIn ys ms
    → length ms < length xs + length ys
    → (p : Text) × (contains xs p ≡ true) × (contains ys p ≡ true)
quorums_meet [] ys ms dx dy hx hy more = absurd (omega (arith, length_le ys ms dy hy))
quorums_meet (x ∷ xs) ys ms dx dy hx hy more = elim (Bool-cases (contains ys x)) [
  | inl both ↦ (x, ground (arith, text_eq_iff x x), both)
  | inr apart ↦
      let (p, in_xs, in_ys) =
        quorums_meet xs (x ∷ ys) ms dx.1 (apart, dy) hx.1 (hx.0, hy) (omega arith) in
      (p, ground arith, ground (arith, text_eq_iff p x, dx.0))
]
