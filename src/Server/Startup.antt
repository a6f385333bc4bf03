-- ===== src/Server/Startup.antt =====
-- The constructor of server/Server.cpp: the cluster that a server knows, from its configuration and
-- the health of the other nodes.
use yolo_server.Prelude.{
  ℕ, zero, suc, ◌+◌, ◌-◌, ◌/◌, ◌%◌, ℤ, pos, negsuc, Bool, true, false, Option, some, Text, List, [],
  ◌∷◌, ◌++◌, ltb, if◌then◌else◌, ◌>>=◌, codes, text_eq,
}
use yolo_server.Config.Store.{Config, get_string, get_int}
use yolo_server.Cluster.Router.{NodeInfo, insert_node}
use yolo_server.Cluster.Health.{Dialer, check_node_health}

-- std::to_string; a number has no more digits than its value plus one.
abbrev pub decimal : ℕ → ℕ → Text
decimal zero n = []
decimal (suc fuel) n =
    let rest = decimal fuel (n / 10) in
    if ltb n 10 then (48 + n) ∷ [] else rest ++ (48 + n % 10) ∷ []

abbrev pub to_string : ℕ → Text
to_string n = decimal (suc n) n

-- The node that the configuration names, before its health is known.
unfoldable pub node_of : Config → ℕ → NodeInfo
node_of config i =
    let prefix = codes "node" ++ to_string (i + 1) in
    record {
      id = get_string (prefix ++ codes ".id") [] config;
      host = get_string (prefix ++ codes ".host") [] config;
      port = get_int (prefix ++ codes ".port") (pos 0) config;
      healthy = false;
    }

-- The conversion of an int to size_t.
abbrev pub as_size : ℤ → ℕ
as_size (pos n) = n
as_size (negsuc n) = 18446744073709551615 - n

unfoldable pub admit : NodeInfo → List NodeInfo → Bool → List NodeInfo
admit node nodes healthy =
    if healthy then (insert_node nodes (record node { healthy = true })).1 else nodes

module _ (D : Dialer) where
  open D.socket use {World}

  unfoldable pub judge : Text → NodeInfo → World → Option (Bool × World)
  judge self_id node w =
      if text_eq self_id node.id then some (true, w) else check_node_health D node w

  -- The loop over the nodes, from the i-th on. `none` is the undefined behaviour of checkNodeHealth.
  unfoldable pub load_nodes :
      Config → Text → ℕ → ℕ → List NodeInfo → World → Option (List NodeInfo × World)
  load_nodes config self_id zero i nodes w = some (nodes, w)
  load_nodes config self_id (suc left) i nodes w = judge self_id (node_of config i) w >>= λ r.
      load_nodes config self_id left (i + 1) (admit (node_of config i) nodes r.0) r.1

  -- The router of the constructor.
  unfoldable pub load_cluster : Config → World → Option (List NodeInfo × World)
  load_cluster config w =
      load_nodes config (get_string (codes "server.id") [] config)
        (as_size (get_int (codes "nodes.count") (pos 0) config)) 0 [] w
