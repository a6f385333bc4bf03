-- ===== src/Server/Alone.antt =====
-- The cluster that the constructor of server/Server.cpp finds among servers of its own kind.
use yolo_server.Prelude.{
  ℕ, zero, suc, ◌+◌, ◌≤◌, ◌≡◌, refl, sym, ◌∙◌, Bool, true, false, Option, Text, List, [], ◌∷◌, pos,
  arith, length, All, All-append, if_cases, codes, text_eq, text_eq_iff, Ensures, Ensures-map,
  Ensures-bind,
}
use mathlib.Core.Bool.{false≢true}
use yolo_server.Config.Store.{Config, get_string, get_int}
use yolo_server.Cluster.Router.{NodeInfo, insert_node, has_id}
use yolo_server.Cluster.Inserting.{IsDistinct, insert_node_lem}
use yolo_server.Cluster.Health.{Dialer, check_node_health}
use yolo_server.Cluster.Checking.{IsFramed, check_node_health-framed}
use yolo_server.Server.Startup.{node_of, as_size, judge, admit, load_nodes, load_cluster}

-- All nodes have the server's own id, and no id is there twice.
abbrev pub IsOwn : Text → List NodeInfo → Type 0
IsOwn self_id nodes = All (λ (n : NodeInfo). n.id ≡ self_id) nodes × IsDistinct nodes

insert_node-IsOwn :
    (self_id : Text) (nodes : List NodeInfo) (n : NodeInfo)
    → n.id ≡ self_id
    → IsOwn self_id nodes
    → IsOwn self_id (insert_node nodes n).1
unfolding insert_node
insert_node-IsOwn self_id nodes n e own = (
  if_cases (λ (r : Bool × List NodeInfo). All (λ (m : NodeInfo). m.id ≡ self_id) r.1)
      (has_id n.id nodes) _ _ (λ there. own.0) (λ fresh. All-append _ nodes (n ∷ []) own.0 (e, tt)),
  (insert_node_lem nodes n own.1).0,
)

own_length : (self_id : Text) (nodes : List NodeInfo) → IsOwn self_id nodes → length nodes ≤ 1
unfolding has_id
own_length self_id [] own = omega arith
own_length self_id (n ∷ []) own = omega arith
own_length self_id (n ∷ m ∷ ns) own = absurd (false≢true (sym own.1.0 ∙ twice))
  where
    twice : has_id n.id (m ∷ ns) ≡ true
    twice = rw ((text_eq_iff m.id n.id).1 (own.0.1.0 ∙ sym own.0.0)) refl

module _ (D : Dialer) (framed : IsFramed D) where
  open D.socket use {World}

  judge-framed :
      (self_id : Text) (node : NodeInfo) (w : World)
      → Ensures (λ r. r.0 ≡ true → node.id ≡ self_id) (judge D self_id node w)
  unfolding judge
  judge-framed self_id node w =
      if_cases (λ (o : Option (Bool × World)). Ensures (λ r. r.0 ≡ true → node.id ≡ self_id) o)
        (text_eq self_id node.id) _ _ (λ same h. sym ((text_eq_iff self_id node.id).0 same))
        (λ other.
          Ensures-map _ _ (λ r failed h. absurd (false≢true (sym failed ∙ h)))
            (check_node_health D node w) (check_node_health-framed D framed node w))

  admit-IsOwn :
      (self_id : Text) (node : NodeInfo) (nodes : List NodeInfo) (healthy : Bool)
      → (healthy ≡ true → node.id ≡ self_id)
      → IsOwn self_id nodes
      → IsOwn self_id (admit node nodes healthy)
  unfolding admit
  admit-IsOwn self_id node nodes true own_id own =
      insert_node-IsOwn self_id nodes (record node { healthy = true }) (own_id refl) own
  admit-IsOwn self_id node nodes false own_id own = own

  load_nodes-IsOwn :
      (config : Config) (self_id : Text) (left i : ℕ) (nodes : List NodeInfo) (w : World)
      → IsOwn self_id nodes
      → Ensures (λ r. IsOwn self_id r.0) (load_nodes D config self_id left i nodes w)
  unfolding load_nodes
  load_nodes-IsOwn config self_id zero i nodes w own = own
  load_nodes-IsOwn config self_id (suc left) i nodes w own =
      Ensures-bind _ _ (judge D self_id (node_of config i) w) _
        (judge-framed self_id (node_of config i) w)
        (λ r own_id.
          load_nodes-IsOwn config self_id left (i + 1) (admit (node_of config i) nodes r.0) r.1
            (admit-IsOwn self_id (node_of config i) nodes r.0 own_id own))

  -- If the answers of all nodes are framed as Protocol.cpp frames them, the constructor of Server
  -- ends with at most one node in the router, and that has the server's own id, whatever nodes the
  -- configuration names.
  pub load_cluster-alone :
      (config : Config) (w : World)
      → Ensures
          (λ r.
            (length r.0 ≤ 1)
            × All (λ (n : NodeInfo). n.id ≡ get_string (codes "server.id") [] config) r.0)
          (load_cluster D config w)
  unfolding load_cluster
  load_cluster-alone config w =
      let self_id = get_string (codes "server.id") [] config in
      let count = as_size (get_int (codes "nodes.count") (pos 0) config) in
      Ensures-map _ _ (λ r own. (own_length self_id r.0 own, own.0))
        (load_nodes D config self_id count 0 [] w)
        (load_nodes-IsOwn config self_id count 0 [] w (tt, tt))
