-- ===== src/Connection/Handlers.antt =====
-- handlePing, handleUnknown, handleStore and handleGet of server/Connection.cpp.
use yolo_server.Prelude.{
  ℕ, ◌+◌, Bool, true, false, Option, none, some, Text, [], ◌∷◌, drop, codes, text_eq,
}
use yolo_server.Prelude.Exec.{Exec, fault, pure, or_throw, or_fault, catch, ◌>>=◌, ◌>>◌}
use yolo_server.Json.Interface.{Json}
use yolo_server.Config.Store.{find}
use yolo_server.Codec.Frame.{YoloFrame, frame_value, encode, decode, read_frame}
use yolo_server.Host.{Host}
use yolo_server.Cluster.Router.{NodeInfo, pick_node}
use yolo_server.Connection.State.{Connection, on_world, reply_with, put_in, get_from_storage}
use yolo_server.Connection.Tokens.{second_token}
use yolo_server.Connection.Forward.{ErrorCode, is_connect_failed, forward_to_node}

module _ {H : Host} where
  -- handlePing
  unfoldable pub handle_ping : Exec (Connection H) Unit
  handle_ping = reply_with (codes "PONG")

  -- handleUnknown
  unfoldable pub handle_unknown : Exec (Connection H) Unit
  handle_unknown = reply_with (codes "ERROR unknown command")

  abbrev pub forward : NodeInfo → Text → Exec (Connection H) ErrorCode
  forward node msg c = on_world (forward_to_node H c.fd node msg) c

  -- What the client is told once a request was forwarded.
  unfoldable pub after_forward : Text → Bool → Exec (Connection H) Unit
  after_forward failure true = reply_with failure
  after_forward failure false = pure tt

  unfoldable pub forward_request : NodeInfo → Text → Text → Exec (Connection H) Unit
  forward_request node msg failure = do
    code ← forward node msg
    after_forward failure (is_connect_failed code)

  -- node.id == m_self.id
  abbrev pub is_self : NodeInfo → Connection H → Bool
  is_self node c = text_eq node.id c.self.id

  -- m_router.pickNode; `fault` is the null pointer that it dereferences.
  abbrev pub pick : (Text → ℕ) → Text → Exec (Connection H) NodeInfo
  pick hash key c = or_fault (pick_node hash c.nodes key) c

  module _ (K : Json) (hash : Text → ℕ) where
    unfoldable pub store_locally : YoloFrame K → Exec (Connection H) Unit
    store_locally frame = do
      value ← or_throw (encode K frame)
      put_in frame.image_id value
      reply_with (codes "STORE OK")

    unfoldable pub store_at : Text → YoloFrame K → NodeInfo → Bool → Exec (Connection H) Unit
    store_at msg frame node true = store_locally frame
    store_at msg frame node false =
        forward_request node msg (codes "ERROR failed to forward STORE request")

    unfoldable pub store_frame : Text → YoloFrame K → Exec (Connection H) Unit
    store_frame msg frame = do
      node ← pick hash frame.image_id
      λ c. store_at msg frame node (is_self node c) c

    -- The try block of handleStore.
    unfoldable pub store_payload : Text → Text → Exec (Connection H) Unit
    store_payload msg json_str = do
      j ← or_throw (K.parse json_str)
      frame ← or_throw (read_frame K j)
      store_frame msg frame

    unfoldable pub store_from : Text → Option ℕ → Exec (Connection H) Unit
    store_from msg none = pure tt
    store_from msg (some pos) =
        catch (store_payload msg (drop (pos + 1) msg))
          (reply_with (codes "ERROR invalid STORE payload"))

    -- handleStore
    unfoldable pub handle_store : Text → Exec (Connection H) Unit
    handle_store msg = store_from msg (find 32 msg)

    -- The frame that handleGet prints. Without a stored value its width and height are
    -- uninitialised, and reading them is undefined.
    unfoldable pub frame_of : Option Text → Exec (Connection H) (YoloFrame K)
    frame_of none c = (fault, c)
    frame_of (some v) c = or_throw (decode K v) c

    unfoldable pub get_locally : Text → Exec (Connection H) Unit
    get_locally image_id = do
      opt ← get_from_storage image_id
      frame ← frame_of opt
      reply ← or_throw (K.dump (frame_value K frame))
      reply_with reply

    unfoldable pub get_at : Text → Text → NodeInfo → Bool → Exec (Connection H) Unit
    get_at msg image_id node true = get_locally image_id
    get_at msg image_id node false =
        forward_request node msg (codes "ERROR failed to forward GET request")

    -- handleGet, with the second word of the message.
    unfoldable pub get_frame : Text → Text → Exec (Connection H) Unit
    get_frame msg [] = reply_with (codes "ERROR missing image_id")
    get_frame msg (b ∷ id) = do
      node ← pick hash (b ∷ id)
      λ c. get_at msg (b ∷ id) node (is_self node c) c

    unfoldable pub handle_get : Text → Exec (Connection H) Unit
    handle_get msg = get_frame msg (second_token msg)
