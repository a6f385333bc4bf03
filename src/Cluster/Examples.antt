-- ===== src/Cluster/Examples.antt =====
-- The theorems on cluster/ShardRouter.cpp at concrete nodes.
use yolo_server.Prelude.{
  ◌≡◌, ◌≢◌, ◌⊎◌, refl, ap, false, none, some, [], ◌∷◌, text_eq, text_eq_iff, All,
}
use mathlib.Core.Bool.{false≢true}
use yolo_server.Cluster.Router.{NodeInfo, has_id, pick_node, pick_loop, consider, score_of}
use yolo_server.Cluster.Picking.{IsPick, pick_node_lem}
use yolo_server.Cluster.Moving.{pick_node-remove}
use yolo_server.Cluster.Inserting.{IsDistinct}
use yolo_server.Cluster.Tests.{toy_hash, node1, node2, node3, trio, image}

node2≢node1 : node2 ≢ node1
unfolding text_eq
node2≢node1 e = false≢true ((text_eq_iff node2.id node1.id).1 (ap (λ n. n.id) e))

node2≢node3 : node2 ≢ node3
unfolding text_eq
node2≢node3 e = false≢true ((text_eq_iff node2.id node3.id).1 (ap (λ n. n.id) e))

pick_node_lem_example :
    ((n : NodeInfo) × (pick_node toy_hash trio image ≡ some n) × IsPick toy_hash image trio n)
    ⊎ ((pick_node toy_hash trio image ≡ none) × All (λ (m : NodeInfo). m.healthy ≡ false) trio)
pick_node_lem_example = pick_node_lem toy_hash image trio

pick_node-remove_example : pick_node toy_hash (node2 ∷ node3 ∷ []) image ≡ some node2
unfolding pick_node pick_loop consider score_of
pick_node-remove_example =
    pick_node-remove toy_hash image [] (node2 ∷ node3 ∷ []) node1 node2 refl node2≢node1

pair-IsDistinct : IsDistinct (node1 ∷ node2 ∷ [])
unfolding has_id text_eq
pair-IsDistinct = (refl, (refl, tt))
