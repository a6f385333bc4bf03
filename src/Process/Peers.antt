-- ===== src/Process/Peers.antt =====
-- The RaftNode that start of server/Server.cpp creates.
use mathlib.Core.Bool.{true≢false}
use yolo_server.Prelude.{
  ℤ, ◌≡◌, refl, sym, subst, ap, ◌∙◌, Bool, Bool-cases, inl, inr, true, false, some, Text, List, [],
  ◌∷◌, All, arith, text_eq, text_eq_refl, if◌then◌else◌, if_cases,
}
use yolo_server.Prelude.Assoc.{Assoc, lookup, lookup-insert, text_key}
use yolo_server.Host.{Host}
use yolo_server.Cluster.Router.{NodeInfo, has_id}
use yolo_server.Cluster.Inserting.{IsDistinct}
use yolo_server.Connection.Raft.{node_env}
use yolo_server.Pool.Connections.{RaftConnectionPool, new_pool}
use yolo_server.Pool.Cleanup.{start}
use yolo_server.Raft.Types.{follower, RaftNode}
use yolo_server.Raft.Node.{init, set_peer_address}
use yolo_server.Raft.Invariant.{IsValid, contains}
use yolo_server.Raft.Safety.{except, except_self}
use yolo_server.Raft.Steps.{init-IsValid}
use yolo_server.Process.RaftLife.{start_raft}
use yolo_server.Process.Lifecycle.{Server}
use yolo_server.Process.Accepting.{others, ids_of, set_addresses, create_raft}

set_addresses-other :
    (k : Text) (ns : List NodeInfo) (node : RaftNode)
    → has_id k ns ≡ false
    → lookup k (set_addresses ns node).peer_addresses ≡ lookup k node.peer_addresses
unfolding set_addresses set_peer_address has_id
set_addresses-other k [] node h = refl
set_addresses-other k (n ∷ ns) node h =
    set_addresses-other k ns (set_peer_address node n.id n.host n.port) (ground (arith, h))
    ∙ lookup-insert n.id k (n.host, n.port) node.peer_addresses
    ∙ ap (λ b. if b then some (n.host, n.port) else lookup k node.peer_addresses) apart
  where
    apart : text_eq n.id k ≡ false
    apart = ground (arith, h)

-- The node knows the address of each of the nodes.
abbrev pub HasAddresses : RaftNode → List NodeInfo → Type 0
HasAddresses node ns =
    All (λ (n : NodeInfo). lookup n.id node.peer_addresses ≡ some (n.host, n.port)) ns

set_addresses-HasAddresses :
    (ns : List NodeInfo) (node : RaftNode) → IsDistinct ns → HasAddresses (set_addresses ns node) ns
unfolding set_addresses set_peer_address
set_addresses-HasAddresses [] node d = tt
set_addresses-HasAddresses (n ∷ ns) node d = (
  set_addresses-other n.id ns (set_peer_address node n.id n.host n.port) d.0
      ∙ lookup-insert n.id n.id (n.host, n.port) node.peer_addresses
      ∙ ap (λ b. if b then some (n.host, n.port) else lookup n.id node.peer_addresses)
          (text_eq_refl n.id),
  set_addresses-HasAddresses ns (set_peer_address node n.id n.host n.port) d.1,
)

has_id-others :
    (k : Text) (self : NodeInfo) (ns : List NodeInfo)
    → has_id k ns ≡ false
    → has_id k (others self ns) ≡ false
unfolding has_id others
has_id-others k self [] h = refl
has_id-others k self (n ∷ ns) h = ground (arith, h, has_id-others k self ns)

others-IsDistinct :
    (self : NodeInfo) (ns : List NodeInfo) → IsDistinct ns → IsDistinct (others self ns)
unfolding others
others-IsDistinct self [] d = tt
others-IsDistinct self (n ∷ ns) d =
    if_cases IsDistinct (text_eq n.id self.id) _ _ (λ h. others-IsDistinct self ns d.1)
      (λ h. (has_id-others n.id self ns d.0, others-IsDistinct self ns d.1))

-- What holds of the others holds of each node that has not this id.
others_all :
    (self : NodeInfo) (ns : List NodeInfo) (P : NodeInfo → Type 0)
    → All P (others self ns)
    → All (λ (m : NodeInfo). text_eq m.id self.id ≡ false → P m) ns
unfolding others
others_all self [] P h = tt
others_all self (n ∷ ns) P h = elim (Bool-cases (text_eq n.id self.id)) [
  | inl same ↦ (
    λ other. absurd (true≢false (sym same ∙ other)),
    others_all self ns P
        (subst (λ b. All P (if b then others self ns else n ∷ others self ns)) same h),
  )
  | inr other ↦
      let both = subst (λ b. All P (if b then others self ns else n ∷ others self ns)) other h in
      (λ e. both.0, others_all self ns P both.1)
]

pub ids_of-others :
    (self : NodeInfo) (ns : List NodeInfo) → ids_of (others self ns) ≡ except self.id (ids_of ns)
unfolding others
ids_of-others self [] = refl
ids_of-others self (n ∷ ns) = elim (Bool-cases (text_eq n.id self.id)) [
  | inl same ↦ rw same (ids_of-others self ns)
  | inr other ↦ rw other (ap (◌∷◌ n.id) (ids_of-others self ns))
]

-- Neither the addresses nor the flag of the threads matter to the invariant.
IsValid-with :
    (n : RaftNode) (running : Bool) (addresses : Assoc Text (Text × ℤ))
    → IsValid n
    → IsValid (record n { running = running; peer_addresses = addresses })
IsValid-with n running addresses v = record {
  indexed = v.indexed;
  committed = v.committed;
  applied = v.applied;
  fits = v.fits;
  tracked = v.tracked;
  ready =
      λ e. record { next_known = (v.ready e).next_known; match_below = (v.ready e).match_below };
}

-- What setPeerAddress keeps.
abbrev IsNamed : Text → List Text → RaftNode → Type 0
IsNamed id peers n =
    IsValid n × (n.node_id ≡ id) × (n.peers ≡ peers) × (n.running ≡ false) × (n.state ≡ follower)

set_addresses-IsNamed :
    (id : Text) (peers : List Text) (ns : List NodeInfo) (n : RaftNode)
    → IsNamed id peers n
    → IsNamed id peers (set_addresses ns n)
unfolding set_addresses set_peer_address
set_addresses-IsNamed id peers [] n h = h
set_addresses-IsNamed id peers (m ∷ ns) n (v, named, same, stopped, follows) =
    set_addresses-IsNamed id peers ns (set_peer_address n m.id m.host m.port)
      (IsValid-with n n.running _ v, named, same, stopped, follows)

start_raft-stopped :
    (n : RaftNode) (p : RaftConnectionPool)
    → n.running ≡ false
    → start_raft n p ≡ (record n { running = true }, start p)
unfolding start_raft
start_raft-stopped n p h = ap (λ b. if b then (n, p) else (record n { running = true }, start p)) h

-- A valid follower of this id that runs, with the ids of all other nodes as its peers, and the address
-- of each; its own id is none of them.
pub record IsStarted (self : NodeInfo) (nodes : List NodeInfo) (n : RaftNode) : Type 0 where
  pub valid : IsValid n
  pub named : n.node_id ≡ self.id
  pub runs : n.running ≡ true
  pub follows : n.state ≡ follower
  pub peers : n.peers ≡ except self.id (ids_of nodes)
  pub addresses :
      All
        (λ (m : NodeInfo).
          text_eq m.id self.id ≡ false → lookup m.id n.peer_addresses ≡ some (m.host, m.port))
        nodes
  pub apart : contains n.peers self.id ≡ false

module _ {H : Host} where
  -- From a router without two nodes of one id, start creates a RaftNode that satisfies the
  -- invariant, has the server's id, follows and runs; its peers are the ids of the router's nodes
  -- in order but the server's own, which is none of them, and it has the host and the port of each
  -- other node as the address.
  pub create_raft-IsStarted :
      (s : Server H)
      → IsDistinct s.nodes
      → (n : RaftNode) × ((create_raft s).1.raft_node ≡ some n) × IsStarted s.self s.nodes n
  unfolding create_raft init
  create_raft-IsStarted s d =
      let peers = others s.self s.nodes in
      let r = init (node_env H) s.self.id (ids_of peers) s.world in
      let n = set_addresses peers r.0 in
      let (v, named, same, stopped, follows) =
        set_addresses-IsNamed s.self.id (ids_of peers) peers r.0
          (init-IsValid (node_env H) s.self.id (ids_of peers) s.world, refl, refl, refl, refl) in
      (
        record n { running = true },
        ap (λ t. some t.0) (start_raft-stopped n new_pool stopped),
        record {
          valid = IsValid-with n true n.peer_addresses v;
          named = named;
          runs = refl;
          follows = follows;
          peers = same ∙ ids_of-others s.self s.nodes;
          addresses =
              others_all s.self s.nodes _
                (set_addresses-HasAddresses peers r.0 (others-IsDistinct s.self s.nodes d));
          apart =
              ap (λ ps. contains ps s.self.id) (same ∙ ids_of-others s.self s.nodes)
              ∙ except_self s.self.id (ids_of s.nodes);
        },
      )
