-- ===== src/Connection/Remote.antt =====
-- STORE and GET of a key of another node: server/Connection.cpp on the node that the client asks, and
-- on the node that owns the key.
use yolo_server.Prelude.{ℕ, ◌≡◌, false, some, Text, [], ◌++◌, codes, text_eq}
use yolo_server.Prelude.Assoc.{lookup, text_key}
use yolo_server.Json.Interface.{Json, IsFaithful, IsPrintable}
use yolo_server.Codec.Frame.{YoloFrame, read_frame, frame_value}
use yolo_server.Host.{Host, host_socket}
use yolo_server.Server.Socket.{IsStream}
use yolo_server.Cluster.Router.{NodeInfo, pick_node}
use yolo_server.Connection.State.{Connection}
use yolo_server.Connection.Loop.{handle}
use yolo_server.Connection.Machine.{IsReliable}
use yolo_server.Connection.Serving.{IsWord}
use yolo_server.Connection.Requests.{Request, store_request, get_request, Table, message_of}
use yolo_server.Connection.Relaying.{SendsAll, Reaches, attempts, asked}

module _ (K : Json) where
  -- A STORE whose text holds a frame that can be printed, or a GET of a frame that is there.
  abbrev pub IsServed : Table K → Request K → Type 0
  IsServed table (store_request s f) =
      ((v : K.Value) × (K.parse s ≡ some v) × (read_frame K v ≡ some f))
      × ((t : Text) × IsPrintable K (frame_value K f) t)
  IsServed table (get_request id) = IsWord id × ((f : YoloFrame K) × (lookup id table ≡ some f))
  IsServed table _ = ⊥

  -- The image id by which the router picks the node.
  abbrev pub key_of : Request K → Text
  key_of (store_request s f) = f.image_id
  key_of (get_request id) = id
  key_of _ = []

  abbrev pub failure_of : Request K → Text
  failure_of (store_request s f) = codes "ERROR failed to forward STORE request"
  failure_of _ = codes "ERROR failed to forward GET request"

  module _ {H : Host} (hash : Text → ℕ) where
    -- The router of this server gives the key of the request to another node.
    abbrev pub Passes : Connection H → NodeInfo → Request K → Type 0
    Passes c node r =
        (pick_node hash c.nodes (key_of r) ≡ some node) × (text_eq node.id c.self.id ≡ false)

-- The two servers of a forwarded request: `near` is the one that the client asks, `far` the owner of
-- the key, which has accepted the connection that the first one makes.
module _ (K : Json) (F : IsFaithful K) (hash : Text → ℕ) {G H : Host} (I : IsStream (host_socket G))
    (all : SendsAll G) (R : IsReliable H) where
  -- Both have the same list of nodes, in which the far one is the node that is picked; and what the one
  -- sends is what arrives at the other, up to the first reply.
  pub record Joined (near : Connection G) (far : Connection H) (f : ℕ) (node : NodeInfo)
      (r : Request K) (out : Text) : Type 0 where
    pub same_nodes : far.nodes ≡ near.nodes
    pub named : far.self ≡ node
    pub reaches : Reaches G f node near.world
    pub request_arrives :
        I.sent (asked G f node (message_of K r) near.world) f
        ≡ I.sent (attempts G f node near.world).1 f ++ R.stream.pending far.world far.fd
    pub reply_arrives :
        R.stream.sent (handle K hash 1 out far).1.world far.fd
        ≡ R.stream.sent far.world far.fd ++ I.pending (asked G f node (message_of K r) near.world) f
