-- ===== src/Cluster/Moving.antt =====
-- pickNode of cluster/ShardRouter.cpp, when a node leaves or joins the list.
use mathlib.Core.Option.{some-injective}
use mathlib.Core.Bool.{false≢true}
use yolo_server.Prelude.{
  subst, ℕ, ◌≡◌, ◌≢◌, ◌⊎◌, inl, inr, refl, sym, ap, ◌∙◌, false, Option, none, some, Text, List, [],
  ◌∷◌, ◌++◌, arith,
}
use yolo_server.Cluster.Router.{NodeInfo, is_none, consider, pick_loop, pick_node}
use yolo_server.Cluster.Picking.{Loses, Wins, Below, score, consider-cases, consider-Below}

module _ (hash : Text → ℕ) (key : Text) where
  consider-Below_of_Loses :
      (n : NodeInfo) (a b : ℕ × Option NodeInfo)
      → Loses hash key n b
      → is_none b.1 ≡ false
      → Below hash key a b
      → Below hash key (consider hash key n a) b
  consider-Below_of_Loses n a b loses some_b below = elim (consider-cases hash key n a) [
    | inl (lost, same) ↦ rw same below
    | inr ((healthy, above), e) ↦ elim loses [
      | inl sick ↦ absurd (false≢true (sym sick ∙ healthy))
      | inr (later, le) ↦ rw e (inr (some_b, le))
    ]
  ]

  consider_of_Wins :
      (n : NodeInfo) (a b : ℕ × Option NodeInfo)
      → Wins hash key n b
      → is_none b.1 ≡ false
      → Below hash key a b
      → consider hash key n a ≡ (score hash key n, some n)
  consider_of_Wins n a b won some_b below = elim (consider-cases hash key n a) [
    | inr (wins, e) ↦ e
    | inl (inl sick, same) ↦ absurd (false≢true (sym sick ∙ won.0))
    | inl (inr (later, le), same) ↦ absurd (elim won.1 [
      | inl first ↦ false≢true (sym some_b ∙ first)
      | inr above ↦ elim below [
        | inl first ↦ false≢true (sym later ∙ first)
        | inr (p, ab) ↦ omega (arith, above, le, ab)
      ]
    ])
  ]

  -- A start below another is overtaken by whatever overtakes the other.
  pick_loop-merge :
      (ns : List NodeInfo) (a b : ℕ × Option NodeInfo)
      → is_none b.1 ≡ false
      → Below hash key a b
      → (pick_loop hash key ns b ≡ b) ⊎ (pick_loop hash key ns a ≡ pick_loop hash key ns b)
  unfolding pick_loop
  pick_loop-merge [] a b some_b below = inl refl
  pick_loop-merge (n ∷ ns) a b some_b below = elim (consider-cases hash key n b) [
    | inl (loses, same) ↦ rw same (
        pick_loop-merge ns (consider hash key n a) b some_b
          (consider-Below_of_Loses n a b loses some_b below))
    | inr (won, e) ↦
        inr (ap (pick_loop hash key ns) (consider_of_Wins n a b won some_b below ∙ sym e))
  ]

  pick_loop-append :
      (xs ys : List NodeInfo) (best : ℕ × Option NodeInfo)
      → pick_loop hash key (xs ++ ys) best ≡ pick_loop hash key ys (pick_loop hash key xs best)
  unfolding pick_loop
  pick_loop-append [] ys best = refl
  pick_loop-append (x ∷ xs) ys best = pick_loop-append xs ys (consider hash key x best)

  -- A node of the list that is not picked for a key can be taken out, wherever it stands, without
  -- a change of the pick.
  pub pick_node-remove :
      (xs ys : List NodeInfo) (n m : NodeInfo)
      → pick_node hash (xs ++ n ∷ ys) key ≡ some m
      → m ≢ n
      → pick_node hash (xs ++ ys) key ≡ some m
  unfolding pick_node pick_loop
  pick_node-remove xs ys n m e other =
      let best = pick_loop hash key xs (0, none) in
      let picked = sym (ap (λ b. b.1) (pick_loop-append xs (n ∷ ys) (0, none))) ∙ e in
      ap (λ b. b.1) (pick_loop-append xs ys (0, none)) ∙ elim (consider-cases hash key n best) [
        | inl (loses, same) ↦ ap (λ b. (pick_loop hash key ys b).1) (sym same) ∙ picked
        | inr (won, beats) ↦
            elim (pick_loop-merge ys best (score hash key n, some n) refl
              (subst (Below hash key best) beats (consider-Below hash key n best))) [
                | inl kept ↦ absurd (
                    other (
                      some-injective m n (
                        sym picked
                        ∙ ap (λ b. (pick_loop hash key ys b).1) beats
                        ∙ ap (λ b. b.1) kept)))
                | inr same ↦
                    ap (λ b. b.1) same ∙ ap (λ b. (pick_loop hash key ys b).1) (sym beats) ∙ picked
              ]
      ]
