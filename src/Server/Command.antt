-- ===== src/Server/Command.antt =====
-- server/Command.h and server/Command.cpp.
use yolo_server.Prelude.{Text, codes, text_eq, if◌then◌else◌}

pub data CommandType : Type 0 where
  ping store get raft_request_vote raft_append_entries unknown : CommandType

-- parseCommand
unfoldable pub parse_command : Text → CommandType
parse_command cmd =
    if text_eq cmd (codes "PING")
    then ping
    else if text_eq cmd (codes "STORE")
    then store
    else if text_eq cmd (codes "GET")
    then get
    else if text_eq cmd (codes "RAFT_REQUEST_VOTE")
    then raft_request_vote
    else if text_eq cmd (codes "RAFT_APPEND_ENTRIES")
    then raft_append_entries
    else unknown
