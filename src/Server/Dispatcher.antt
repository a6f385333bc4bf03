-- ===== src/Server/Dispatcher.antt =====
-- server/Dispatcher.cpp: dispatch. Its static getCmd is used by nothing and left out. The parameters
-- are json::value with a text as the default, where `none` is an exception, and the text of the
-- exception that a request leads to.
use yolo_server.Prelude.{
  not, Option, none, some, ◌>>=◌, Text, [], ◌∷◌, ◌++◌, codes, text_eq, if◌then◌else◌,
}
use yolo_server.Json.Interface.{Json}

module _ (K : Json) (value : K.Value → Text → Text → Option Text) (what : Text → Text) where
  open K use {Value, parse, dump, text, object, index, contains, get_text}

  -- json{{"status", status}, {key, result}}.dump()
  abbrev pub dumped : Text → Text → Text → Option Text
  dumped status key result = dump (object ((codes "status", text status) ∷ (key, text result) ∷ []))

  unfoldable pub run_cmd : Value → Text → Option Text
  run_cmd req cmd =
      let echo = value req (codes "data") [] >>= dumped (codes "ok") (codes "data") in
      if text_eq cmd (codes "ping")
      then dumped (codes "ok") (codes "data") (codes "pong")
      else if text_eq cmd (codes "echo")
      then echo
      else dumped (codes "error") (codes "msg") (codes "unknown command")

  -- The try block.
  unfoldable pub run_request : Value → Option Text
  run_request req =
      let run = index req (codes "cmd") >>= get_text >>= run_cmd req in
      if not (contains req (codes "cmd"))
      then some (codes "{\"status\":\"error\",\"msg\":\"missing cmd\"}")
      else run

  abbrev pub or_report : Text → Option Text → Option Text
  or_report request none =
      dumped (codes "error") (codes "msg") (codes "invalid json: " ++ what request)
  or_report request (some reply) = some reply

  -- dispatch; `none` is an exception of the dump in the handler.
  unfoldable pub dispatch : Text → Option Text
  dispatch request = or_report request (parse request >>= run_request)
