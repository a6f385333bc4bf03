-- ===== src/Cluster/Picking.antt =====
-- pickNode of cluster/ShardRouter.cpp: one round of its loop, and where a key goes.
use mathlib.Core.List.{Memᴰ}
use mathlib.Core.Bool.{false≢true}
use yolo_server.Prelude.{
  All-map, ℕ, ◌≤◌, ◌<◌, ◌≡◌, ◌⊎◌, inl, inr, refl, sym, ap, ◌∙◌, true, false, Option, none, some,
  Text, List, [], ◌∷◌, arith, ltb, All, Bool-cases,
}
use yolo_server.Cluster.Router.{NodeInfo, is_none, score_of, consider, pick_loop, pick_node}

module _ (hash : Text → ℕ) (key : Text) where
  abbrev pub score : NodeInfo → ℕ
  score n = score_of hash key n

  -- What one round can do: leave the best as it is, or put a healthy node that beats it there.
  abbrev pub Loses : NodeInfo → ℕ × Option NodeInfo → Type 0
  Loses n best = (n.healthy ≡ false) ⊎ ((is_none best.1 ≡ false) × (score n ≤ best.0))

  abbrev pub Wins : NodeInfo → ℕ × Option NodeInfo → Type 0
  Wins n best = (n.healthy ≡ true) × ((is_none best.1 ≡ true) ⊎ (best.0 < score n))

  pub consider-cases :
      (n : NodeInfo) (best : ℕ × Option NodeInfo)
      → (Loses n best × (consider hash key n best ≡ best))
        ⊎ (Wins n best × (consider hash key n best ≡ (score n, some n)))
  unfolding consider score_of
  consider-cases n best = elim (Bool-cases n.healthy) [
    | inr sick ↦ inl (inl sick, rw sick refl)
    | inl healthy ↦ elim (Bool-cases (is_none best.1)) [
      | inl first ↦ inr ((healthy, inl first), rw (healthy, first) refl)
      | inr later ↦ elim (Bool-cases (ltb best.0 (score n))) [
        | inl above ↦ inr ((healthy, inr (ground arith)), rw (healthy, later, above) refl)
        | inr below ↦ inl (inr (later, ground arith), rw (healthy, later, below) refl)
      ]
    ]
  ]

  -- The second best score is of a node, and not below the first.
  abbrev pub Below : ℕ × Option NodeInfo → ℕ × Option NodeInfo → Type 0
  Below a b = (is_none a.1 ≡ true) ⊎ ((is_none b.1 ≡ false) × (a.0 ≤ b.0))

  Below-refl : (a : ℕ × Option NodeInfo) → Below a a
  Below-refl (s, none) = inl refl
  Below-refl (s, some n) = inr (refl, omega arith)

  Below-trans : (a b c : ℕ × Option NodeInfo) → Below a b → Below b c → Below a c
  Below-trans a b c (inl first) q = inl first
  Below-trans a b c (inr p) (inl gone) = absurd (false≢true (sym p.0 ∙ gone))
  Below-trans a b c (inr p) (inr q) = inr (q.0, omega (arith, p.1, q.1))

  pub consider-Below :
      (n : NodeInfo) (best : ℕ × Option NodeInfo) → Below best (consider hash key n best)
  consider-Below n best = elim (consider-cases n best) [
    | inl (loses, same) ↦ rw same (Below-refl best)
    | inr ((healthy, inl first), e) ↦ inl first
    | inr ((healthy, inr above), e) ↦ rw e (inr (refl, omega arith))
  ]

  pick_loop-Below :
      (ns : List NodeInfo) (best : ℕ × Option NodeInfo) → Below best (pick_loop hash key ns best)
  unfolding pick_loop
  pick_loop-Below [] best = Below-refl best
  pick_loop-Below (n ∷ ns) best =
      let next = consider hash key n best in
      Below-trans best next (pick_loop hash key ns next) (consider-Below n best)
        (pick_loop-Below ns next)

  -- No healthy node of the list beats the best.
  abbrev IsTop : ℕ × Option NodeInfo → NodeInfo → Type 0
  IsTop best m = m.healthy ≡ true → (is_none best.1 ≡ false) × (score m ≤ best.0)

  IsTop-Below : (a b : ℕ × Option NodeInfo) (m : NodeInfo) → Below a b → IsTop a m → IsTop b m
  IsTop-Below a b m (inl first) top healthy = absurd (false≢true (sym (top healthy).0 ∙ first))
  IsTop-Below a b m (inr p) top healthy = (p.0, omega (arith, p.1, (top healthy).1))

  consider-IsTop : (n : NodeInfo) (best : ℕ × Option NodeInfo) → IsTop (consider hash key n best) n
  consider-IsTop n best = elim (consider-cases n best) [
    | inl ((inl sick), same) ↦ λ healthy. absurd (false≢true (sym sick ∙ healthy))
    | inl ((inr below), same) ↦ rw same (λ healthy. below)
    | inr (won, e) ↦ rw e (λ healthy. (refl, omega arith))
  ]

  pick_loop-IsTop :
      (ns : List NodeInfo) (best : ℕ × Option NodeInfo)
      → All (IsTop (pick_loop hash key ns best)) ns
  unfolding pick_loop
  pick_loop-IsTop [] best = tt
  pick_loop-IsTop (n ∷ ns) best =
      let next = consider hash key n best in
      (
        IsTop-Below next (pick_loop hash key ns next) n (pick_loop-Below ns next)
            (consider-IsTop n best),
        pick_loop-IsTop ns next,
      )

  IsTop-none :
      (best : ℕ × Option NodeInfo) (m : NodeInfo) → best.1 ≡ none → IsTop best m → m.healthy ≡ false
  IsTop-none best m e top = elim (Bool-cases m.healthy) [
    | inl healthy ↦ absurd (false≢true (sym (top healthy).0 ∙ ap is_none e))
    | inr sick ↦ sick
  ]

  -- Where the best comes from: from the start, or from a healthy node of the list.
  abbrev ComesFrom : List NodeInfo → ℕ × Option NodeInfo → ℕ × Option NodeInfo → Type 0
  ComesFrom ns start best =
      (best ≡ start)
      ⊎ ((n : NodeInfo) × Memᴰ n ns × (n.healthy ≡ true) × (best ≡ (score n, some n)))

  pick_loop-ComesFrom :
      (ns : List NodeInfo) (best : ℕ × Option NodeInfo)
      → ComesFrom ns best (pick_loop hash key ns best)
  unfolding pick_loop
  pick_loop-ComesFrom [] best = inl refl
  pick_loop-ComesFrom (n ∷ ns) best = elim (pick_loop-ComesFrom ns (consider hash key n best)) [
    | inr (m, there, healthy, e) ↦ inr (m, Memᴰ.tail there, healthy, e)
    | inl kept ↦ elim (consider-cases n best) [
      | inl (loses, same) ↦ inl (kept ∙ same)
      | inr ((healthy, above), e) ↦ inr (n, Memᴰ.head refl, healthy, kept ∙ e)
    ]
  ]

  -- The pick of a key: a healthy node of the list that no healthy node beats, or no node if none is
  -- healthy.
  pub record IsPick (nodes : List NodeInfo) (n : NodeInfo) : Type 0 where
    pub member : Memᴰ n nodes
    pub healthy : n.healthy ≡ true
    pub top : All (λ (m : NodeInfo). m.healthy ≡ true → score m ≤ score n) nodes

  -- PickNode returns a healthy node of the list whose score for the key no other healthy node
  -- exceeds; it dereferences the null pointer exactly if no node is healthy.
  pub pick_node_lem :
      (nodes : List NodeInfo)
      → ((n : NodeInfo) × (pick_node hash nodes key ≡ some n) × IsPick nodes n)
        ⊎ ((pick_node hash nodes key ≡ none) × All (λ (m : NodeInfo). m.healthy ≡ false) nodes)
  unfolding pick_node
  pick_node_lem nodes =
      let top = pick_loop-IsTop nodes (0, none) in
      elim (pick_loop-ComesFrom nodes (0, none)) [
        | inl e ↦
            inr (ap (λ b. b.1) e, All-map (λ m t. IsTop-none _ m (ap (λ b. b.1) e) t) nodes top)
        | inr (n, there, healthy, e) ↦ inl (
          n,
          ap (λ b. b.1) e,
          record {
            member = there;
            healthy = healthy;
            top = All-map (λ m t h. omega (arith, (t h).1, ap (λ b. b.0) e)) nodes top;
          },
        )
      ]
