-- ===== src/Connection/Payload.antt =====
-- Reading the arguments of AppendEntries in server/Connection.cpp touches neither the machine nor the
-- connection.
use yolo_server.Prelude.{refl, Option, Text, List, [], ◌∷◌, codes, if_both}
use yolo_server.Prelude.Exec.{Exec, or_throw, of_outcome, pure, ◌>>=◌}
use yolo_server.Json.Interface.{Json}
use yolo_server.Host.{Host}
use yolo_server.Raft.Types.{LogEntry}
use yolo_server.Rpc.Arguments.{
  member, const_member, read_entry, read_entries, entries_in, read_all_entries, read_append_args,
}
use yolo_server.Connection.State.{Connection}
use yolo_server.Connection.Lasting.{
  KeptByCalls, Keeps, bind-Keeps, or_throw-Keeps, of_outcome-Keeps,
}

module _ {H : Host} (P : H.World → Type 0) (Q : KeptByCalls H P) (K : Json) where
  -- What follows a member that was read.
  member_then :
      {A B : Type 0} (get : K.Value → Option A) (v : K.Value) (key : Text)
      (f : A → Exec (Connection H) B)
      → ((a : A) → Keeps P Q (f a))
      → Keeps P Q (member K get v key >>= f)
  member_then get v key f next =
      bind-Keeps P Q (member K get v key) f
        (bind-Keeps P Q (or_throw (K.index v key)) _ (or_throw-Keeps P Q (K.index v key))
          (λ found. or_throw-Keeps P Q (get found)))
        next

  const_member_then :
      {A B : Type 0} (get : K.Value → Option A) (v : K.Value) (key : Text)
      (f : A → Exec (Connection H) B)
      → ((a : A) → Keeps P Q (f a))
      → Keeps P Q (const_member K get v key >>= f)
  const_member_then get v key f next =
      bind-Keeps P Q (const_member K get v key) f
        (bind-Keeps P Q (of_outcome (K.index_const v key)) _
          (of_outcome-Keeps P Q (K.index_const v key)) (λ found. or_throw-Keeps P Q (get found)))
        next

  read_entry-Keeps : (v : K.Value) → Keeps P Q (read_entry K v)
  unfolding read_entry
  read_entry-Keeps v = const_member_then K.get_unsigned v (codes "term") _ (λ t.
      const_member_then K.get_unsigned v (codes "index") _ (λ i.
        const_member_then K.get_text v (codes "key") _
          (λ k. const_member_then K.get_text v (codes "value") _ (λ x c p. (p, refl)))))

  read_entries-Keeps : (vs : List K.Value) → Keeps P Q (read_entries K vs)
  unfolding read_entries
  read_entries-Keeps [] c p = (p, refl)
  read_entries-Keeps (v ∷ vs) c p =
      bind-Keeps P Q (read_entry K v) _ (read_entry-Keeps v)
        (λ e. bind-Keeps P Q (read_entries K vs) _ (read_entries-Keeps vs) (λ es c1 p1. (p1, refl)))
        c p

  read_all_entries-Keeps : (v : K.Value) → Keeps P Q (read_all_entries K v)
  unfolding read_all_entries
  read_all_entries-Keeps v =
      if_both (λ (m : Exec (Connection H) (List LogEntry)). Keeps P Q m)
        (K.contains v (codes "entries")) (entries_in K v) (pure [])
        (bind-Keeps P Q (or_throw (K.index v (codes "entries"))) _
          (or_throw-Keeps P Q (K.index v (codes "entries")))
          (λ list. read_entries-Keeps (K.elements list)))
        (λ c p. (p, refl))

  pub read_append_args-Keeps : (v : K.Value) → Keeps P Q (read_append_args K v)
  unfolding read_append_args
  read_append_args-Keeps v = member_then K.get_unsigned v (codes "term") _ (λ t.
      member_then K.get_text v (codes "leaderId") _ (λ l.
        member_then K.get_unsigned v (codes "prevLogIndex") _ (λ i.
          member_then K.get_unsigned v (codes "prevLogTerm") _ (λ u.
            member_then K.get_unsigned v (codes "leaderCommit") _ (λ k.
              bind-Keeps P Q (read_all_entries K v) _ (read_all_entries-Keeps v)
                (λ es c p. (p, refl)))))))
