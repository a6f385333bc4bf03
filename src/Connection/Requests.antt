-- ===== src/Connection/Requests.antt =====
-- What a client asks of server/Connection.cpp, and what a map from image ids to frames answers.
use yolo_server.Prelude.{
  ◌>>=◌, ℕ, ◌≤◌, ◌≡◌, Option, none, some, Text, List, [], ◌∷◌, ◌++◌, length, codes,
}
use yolo_server.Prelude.Assoc.{Assoc, lookup, insert, text_key}
use yolo_server.Json.Interface.{Json, IsPrintable}
use yolo_server.Codec.Frame.{read_frame, YoloFrame, frame_value}
use yolo_server.Server.Command.{parse_command, unknown}
use yolo_server.Connection.Tokens.{get_first_token}
use yolo_server.Host.{Host}
use yolo_server.Server.Headers.{frame}
use yolo_server.Connection.State.{Connection}
use yolo_server.Connection.Machine.{IsReliable}
use yolo_server.Connection.Serving.{IsWord, Owns}

-- A STORE with its JSON text and the frame in it, a GET and a PING; a STORE and a GET of one word, a
-- STORE whose text is no frame, and a message whose first word is no command.
pub data Request (K : Json) : Type 0 where
  store_request : Text → YoloFrame K → Request K
  get_request : Text → Request K
  ping_request bare_store bare_get : Request K
  broken_store unknown_request : Text → Request K

module _ (K : Json) where
  abbrev pub Table : Type 0
  Table = Assoc Text (YoloFrame K)

  abbrev pub message_of : Request K → Text
  message_of (store_request s f) = codes "STORE " ++ s
  message_of (get_request id) = codes "GET " ++ id
  message_of ping_request = codes "PING"
  message_of bare_store = codes "STORE"
  message_of bare_get = codes "GET"
  message_of (broken_store s) = codes "STORE " ++ s
  message_of (unknown_request msg) = msg

  -- The map after a request, and what the client is told.
  abbrev pub update : Request K → Table → Table
  update (store_request s f) table = insert f.image_id f table
  update _ table = table

  abbrev pub printed_frame : Option (YoloFrame K) → Option Text
  printed_frame none = none
  printed_frame (some f) = K.dump (frame_value K f)

  abbrev pub answer_of : Request K → Table → Option Text
  answer_of (store_request s f) table = some (codes "STORE OK")
  answer_of (get_request id) table = printed_frame (lookup id table)
  answer_of ping_request table = some (codes "PONG")
  answer_of bare_store table = none
  answer_of bare_get table = some (codes "ERROR missing image_id")
  answer_of (broken_store s) table = some (codes "ERROR invalid STORE payload")
  answer_of (unknown_request msg) table = some (codes "ERROR unknown command")

  abbrev pub framed : Option Text → Text
  framed none = []
  framed (some t) = frame t

  abbrev pub incoming : List (Request K) → Text
  incoming [] = []
  incoming (r ∷ rs) = frame (message_of r) ++ incoming rs

  abbrev pub outgoing : List (Request K) → Table → Text
  outgoing [] table = []
  outgoing (r ∷ rs) table = framed (answer_of r table) ++ outgoing rs (update r table)

  abbrev pub updates : List (Request K) → Table → Table
  updates [] table = table
  updates (r ∷ rs) table = updates rs (update r table)

  module _ {H : Host} (R : IsReliable H) where
    -- The database has the frames of the map.
    abbrev pub Holds : H.World → Table → Type 0
    Holds w table =
        (id : Text) (f : YoloFrame K)
        → lookup id table ≡ some f
        → (t : Text) × (R.durable.stored w id ≡ some t) × IsPrintable K (frame_value K f) t

  module _ {H : Host} (hash : Text → ℕ) where
    -- The server owns the key, a STORE has a frame that can be printed, and a GET asks for one that is
    -- there.
    abbrev pub IsAllowed : Connection H → Table → Request K → Type 0
    IsAllowed c table (store_request s f) =
        ((v : K.Value) × (K.parse s ≡ some v) × (read_frame K v ≡ some f))
        × ((t : Text) × IsPrintable K (frame_value K f) t)
        × Owns hash c f.image_id
    IsAllowed c table (get_request id) =
        IsWord id × Owns hash c id × ((f : YoloFrame K) × (lookup id table ≡ some f))
    IsAllowed c table (broken_store s) = (K.parse s >>= read_frame K) ≡ none
    IsAllowed c table (unknown_request msg) =
        (1 ≤ length msg) × (parse_command (get_first_token msg) ≡ unknown)
    IsAllowed c table _ = Unit

    -- All requests are allowed, and none is longer than a message may be.
    abbrev pub AreAllowed : Connection H → Table → List (Request K) → Type 0
    AreAllowed c table [] = Unit
    AreAllowed c table (r ∷ rs) =
        IsAllowed c table r × (length (message_of r) ≤ 1048576) × AreAllowed c (update r table) rs
