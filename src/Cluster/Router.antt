-- ===== src/Cluster/Router.antt =====
-- cluster/NodeInfo.h and the class of cluster/ShardRouter.cpp. The object is its list m_nodes.
use yolo_server.Prelude.{
  ℕ, ℤ, Bool, true, false, not, ◌||◌, Option, none, some, Text, List, [], ◌∷◌, ◌++◌, ltb,
  if◌then◌else◌, text_eq,
}

pub record NodeInfo : Type 0 where
  pub id : Text
  pub host : Text
  pub port : ℤ
  pub healthy : Bool

abbrev pub is_none : Option NodeInfo → Bool
is_none none = true
is_none (some n) = false

-- insertNode: the result and the new list.
unfoldable pub has_id : Text → List NodeInfo → Bool
has_id id [] = false
has_id id (n ∷ ns) = text_eq n.id id || has_id id ns

unfoldable pub insert_node : List NodeInfo → NodeInfo → Bool × List NodeInfo
insert_node nodes node = if has_id node.id nodes then (false, nodes) else (true, nodes ++ node ∷ [])

-- The parameter is std::hash<std::string>.
module _ (hash : Text → ℕ) where
  -- The score of a node for a key; 35 is the code of '#'.
  unfoldable pub score_of : Text → NodeInfo → ℕ
  score_of key n = hash (key ++ 35 ∷ n.id)

  -- One round of the loop of pickNode, on best_score and best_node.
  unfoldable pub consider : Text → NodeInfo → ℕ × Option NodeInfo → ℕ × Option NodeInfo
  consider key n (best_score, best_node) =
      let score = score_of key n in
      if not n.healthy
      then (best_score, best_node)
      else if is_none best_node || ltb best_score score
      then (score, some n)
      else (best_score, best_node)

  unfoldable pub pick_loop : Text → List NodeInfo → ℕ × Option NodeInfo → ℕ × Option NodeInfo
  pick_loop key [] best = best
  pick_loop key (n ∷ ns) best = pick_loop key ns (consider key n best)

  -- pickNode; `none` is the null pointer that it dereferences.
  unfoldable pub pick_node : List NodeInfo → Text → Option NodeInfo
  pick_node nodes key = (pick_loop key nodes (0, none)).1
