-- ===== src/Connection/TwoServers.antt =====
-- A STORE that a client sends to one server of server/Connection.cpp, and that another one owns.
use yolo_server.Prelude.{ℕ, none, Text, [], ◌∷◌, ◌++◌, codes}
use yolo_server.Prelude.Assoc.{Assoc, text_key}
use yolo_server.Json.Toy.{toy}
use yolo_server.Codec.Frame.{YoloFrame}
use yolo_server.Codec.Tests.{cat, cat_text, table}
use yolo_server.Server.Headers.{frame}
use yolo_server.Connection.State.{Connection}
use yolo_server.Connection.Requests.{Request, store_request}
use yolo_server.Connection.Tests.{machine, with_inbox, alone}
use yolo_server.Connection.TwoWires.{there}

abbrev constant : Text → ℕ
constant key = 0

abbrev store_cat : Request (toy table)
store_cat = store_request cat_text (cat table)

-- The owner, with the forwarded request in front of its socket.
abbrev owner : Connection machine
owner = record (alone none (with_inbox (frame (codes "STORE " ++ cat_text)))) {
  nodes = there ∷ [];
  self = there;
}

abbrev empty_table : Assoc Text (YoloFrame (toy table))
empty_table = []
