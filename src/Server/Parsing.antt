-- ===== src/Server/Parsing.antt =====
-- parseCommand of server/Command.cpp.
use mathlib.Core.Bool.{false≢true}
use yolo_server.Prelude.{
  ◌≡◌, ◌≢◌, sym, ◌∙◌, false, true, Text, codes, text_eq, text_eq_iff, if_cases,
}
use yolo_server.Server.Command.{
  CommandType, ping, store, get, raft_request_vote, raft_append_entries, unknown, parse_command,
}

-- The words of a command.
abbrev pub HasWord : CommandType → Text → Type 0
HasWord ping cmd = cmd ≡ codes "PING"
HasWord store cmd = cmd ≡ codes "STORE"
HasWord get cmd = cmd ≡ codes "GET"
HasWord raft_request_vote cmd = cmd ≡ codes "RAFT_REQUEST_VOTE"
HasWord raft_append_entries cmd = cmd ≡ codes "RAFT_APPEND_ENTRIES"
HasWord unknown cmd =
    (cmd ≢ codes "PING")
    × (cmd ≢ codes "STORE")
    × (cmd ≢ codes "GET")
    × (cmd ≢ codes "RAFT_REQUEST_VOTE")
    × (cmd ≢ codes "RAFT_APPEND_ENTRIES")

same : (s t : Text) → text_eq s t ≡ true → s ≡ t
same s t h = (text_eq_iff s t).0 h

differ : (s t : Text) → text_eq s t ≡ false → s ≢ t
differ s t h e = false≢true (sym h ∙ (text_eq_iff s t).1 e)

-- ParseCommand finds the command whose word the text is, and UNKNOWN for a text that is the word of
-- no command.
pub parse_command-HasWord : (cmd : Text) → HasWord (parse_command cmd) cmd
unfolding parse_command
parse_command-HasWord cmd = if_cases P (text_eq cmd w1) _ _ (same cmd w1) (λ n1.
    if_cases P (text_eq cmd w2) _ _ (same cmd w2) (λ n2.
      if_cases P (text_eq cmd w3) _ _ (same cmd w3) (λ n3.
        if_cases P (text_eq cmd w4) _ _ (same cmd w4) (λ n4.
          if_cases P (text_eq cmd w5) _ _ (same cmd w5) (λ n5. (
            differ cmd w1 n1,
            differ cmd w2 n2,
            differ cmd w3 n3,
            differ cmd w4 n4,
            differ cmd w5 n5,
          ))))))
  where
    P : CommandType → Type 0
    P c = HasWord c cmd

    w1 : Text
    w1 = codes "PING"

    w2 : Text
    w2 = codes "STORE"

    w3 : Text
    w3 = codes "GET"

    w4 : Text
    w4 = codes "RAFT_REQUEST_VOTE"

    w5 : Text
    w5 = codes "RAFT_APPEND_ENTRIES"
