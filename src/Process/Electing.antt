-- ===== src/Process/Electing.antt =====
-- Servers of server/Server.cpp that are started with one list of nodes, and lead by election.
use yolo_server.Prelude.{
  ◌≡◌, ◌≢◌, refl, sym, ap, ◌∙◌, subst, true, false, some, Text, List, [], ◌∷◌, All, All-map, arith,
  text_eq_iff,
}
use mathlib.Core.Option.{some-injective}
use yolo_server.Host.{Host}
use yolo_server.Cluster.Router.{NodeInfo, has_id}
use yolo_server.Cluster.Inserting.{IsDistinct}
use yolo_server.Raft.Types.{RaftNode, leader}
use yolo_server.Raft.Env.{Env}
use yolo_server.Raft.Invariant.{contains}
use yolo_server.Raft.Steps.{Reach}
use yolo_server.Raft.Quorum.{AreDistinct}
use yolo_server.Raft.Safety.{Member, IsMember, Backed, except, one_leader_per_term}
use yolo_server.Process.Lifecycle.{Server}
use yolo_server.Process.Accepting.{ids_of, create_raft}
use yolo_server.Process.Peers.{IsStarted, create_raft-IsStarted}

contains-ids_of :
    (id : Text) (ns : List NodeInfo) → has_id id ns ≡ false → contains (ids_of ns) id ≡ false
unfolding has_id
contains-ids_of id [] h = refl
contains-ids_of id (n ∷ ns) h =
    ground (arith, h, contains-ids_of id ns, text_eq_iff n.id id, text_eq_iff id n.id)

ids_of-AreDistinct : (ns : List NodeInfo) → IsDistinct ns → AreDistinct (ids_of ns)
ids_of-AreDistinct [] d = tt
ids_of-AreDistinct (n ∷ ns) d = (contains-ids_of n.id ns d.0, ids_of-AreDistinct ns d.1)

-- A server, the RaftNode that start has created for it, and what has become of the node.
pub record Booted : Type 1 where
  pub machine : Host
  pub server : Server machine
  pub node : RaftNode
  pub created : (create_raft server).1.raft_node ≡ some node
  pub env : Env
  pub current : RaftNode
  pub run : Reach env node current

abbrev pub member_of : Booted → Member
member_of b = record { env = b.env; start = b.node; current = b.current; run = b.run }

-- It was started with these nodes, as the one of this id.
abbrev pub IsBooted : List NodeInfo → Text → Booted → Type 0
IsBooted nodes id b = (b.server.nodes ≡ nodes) × (b.server.self.id ≡ id)

started-IsMember :
    (nodes : List NodeInfo) (id : Text) (b : Booted)
    → IsDistinct nodes
    → IsBooted nodes id b
    → IsMember (ids_of nodes) id (member_of b)
started-IsMember nodes id b d (same, named) =
    let (n, there, started) = create_raft-IsStarted b.server (subst IsDistinct (sym same) d) in
    let is =
      subst (IsStarted b.server.self b.server.nodes)
        (some-injective n b.node (sym there ∙ b.created)) started in
    record {
      valid = is.valid;
      named = is.named ∙ named;
      peers =
          is.peers
          ∙ ap (λ k. except k (ids_of b.server.nodes)) named
          ∙ ap (λ ns. except id (ids_of ns)) same;
      follows = λ e. absurd (ground (arith, sym is.follows ∙ e));
    }

-- Of servers that are started with the same list of nodes, of which no two have the same id and
-- none an empty one, no two have a RaftNode that leads the same term, after any sequence of calls
-- on each node in which the AppendEntries requests are sound (their entries carry the indices of
-- their places, contradict no committed entry of the node, and keep the log shorter than 2^64) and
-- neither the term nor the length of the log wraps around, where a counted vote was given by the
-- peer that it is counted for.
pub one_leader_of_servers :
    (nodes : List NodeInfo) (servers : Text → Booted) (p q : Text)
    → IsDistinct nodes
    → All (λ id. id ≢ []) (ids_of nodes)
    → All (λ id. IsBooted nodes id (servers id)) (ids_of nodes)
    → All (Backed (λ id. member_of (servers id))) (ids_of nodes)
    → contains (ids_of nodes) p ≡ true
    → contains (ids_of nodes) q ≡ true
    → (servers p).current.state ≡ leader
    → (servers q).current.state ≡ leader
    → (servers p).current.current_term ≡ (servers q).current.current_term
    → p ≡ q
one_leader_of_servers nodes servers p q d named booted honest in_p in_q =
    one_leader_per_term (ids_of nodes) (λ id. member_of (servers id)) p q
      (record {
        distinct = ids_of-AreDistinct nodes d;
        named = named;
        members =
            All-map (λ id b. started-IsMember nodes id (servers id) d b) (ids_of nodes) booted;
        honest = honest;
      })
      in_p in_q
