-- ===== src/Rpc/Arguments.antt =====
-- handleRaftAppendEntries of server/Connection.cpp: the arguments from the payload. The entries are read
-- through a const reference.
use yolo_server.Prelude.{Option, Text, List, [], ◌∷◌, if◌then◌else◌, codes}
use yolo_server.Prelude.Exec.{Exec, pure, or_throw, of_outcome, ◌>>=◌}
use yolo_server.Json.Interface.{Json}
use yolo_server.Raft.Types.{LogEntry, AppendEntriesArgs}

module _ (K : Json) {S : Type 0} where
  open K use {Value, index, contains, elements, get_text, get_unsigned, index_const}

  -- v[key], converted.
  abbrev pub member : {A : Type 0} → (Value → Option A) → Value → Text → Exec S A
  member get v key = do found ← or_throw (index v key); or_throw (get found)

  -- v[key] of a const v, converted.
  abbrev pub const_member : {A : Type 0} → (Value → Option A) → Value → Text → Exec S A
  const_member get v key = do found ← of_outcome (index_const v key); or_throw (get found)

  unfoldable pub read_entry : Value → Exec S LogEntry
  read_entry v = do
    term ← const_member get_unsigned v (codes "term")
    index ← const_member get_unsigned v (codes "index")
    key ← const_member get_text v (codes "key")
    value ← const_member get_text v (codes "value")
    pure (record { term = term; index = index; key = key; value = value })

  unfoldable pub read_entries : List Value → Exec S (List LogEntry)
  read_entries [] = pure []
  read_entries (v ∷ vs) = do entry ← read_entry v; entries ← read_entries vs; pure (entry ∷ entries)

  abbrev pub entries_in : Value → Exec S (List LogEntry)
  entries_in v = do list ← or_throw (index v (codes "entries")); read_entries (elements list)

  unfoldable pub read_all_entries : Value → Exec S (List LogEntry)
  read_all_entries v = if contains v (codes "entries") then entries_in v else pure []

  unfoldable pub read_append_args : Value → Exec S AppendEntriesArgs
  read_append_args v = do
    term ← member get_unsigned v (codes "term")
    leader_id ← member get_text v (codes "leaderId")
    prev_log_index ← member get_unsigned v (codes "prevLogIndex")
    prev_log_term ← member get_unsigned v (codes "prevLogTerm")
    leader_commit ← member get_unsigned v (codes "leaderCommit")
    entries ← read_all_entries v
    pure (record {
      term = term;
      leader_id = leader_id;
      prev_log_index = prev_log_index;
      prev_log_term = prev_log_term;
      entries = entries;
      leader_commit = leader_commit;
    })
