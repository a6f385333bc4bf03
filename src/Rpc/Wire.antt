-- ===== src/Rpc/Wire.antt =====
-- What is written by one side of an exchange and read by the other.
use yolo_server.Prelude.{
  ℕ, ◌<◌, ◌≡◌, refl, ap, ◌∙◌, Option, some, ◌>>=◌, Text, List, [], ◌∷◌, ◌++◌, All, codes, text_eq,
}
use yolo_server.Prelude.Assoc.{lookup, text_key}
use yolo_server.Json.Interface.{Json, IsFaithful}
use yolo_server.Config.Store.{find}
use yolo_server.Raft.Types.{
  LogEntry, RequestVoteArgs, RequestVoteReply, AppendEntriesArgs, AppendEntriesReply,
}
use yolo_server.Rpc.Messages.{
  vote_request_value, read_vote_args, vote_reply_value, read_vote_reply, entry_value, entry_values,
  append_request_value, append_reply_value, read_append_reply,
}
use yolo_server.Rpc.Arguments.{
  const_member, read_entry, read_entries, read_all_entries, read_append_args,
}
use yolo_server.Prelude.Exec.{returns}
use yolo_server.Rpc.Exchange.{read_reply}

abbrev pub u64 : ℕ
u64 = 18446744073709551616

-- The numbers of a message fit into 64 bits.
abbrev pub VoteArgsFit : RequestVoteArgs → Type 0
VoteArgsFit a = (a.term < u64) × (a.last_log_index < u64) × (a.last_log_term < u64)

abbrev pub EntryFits : LogEntry → Type 0
EntryFits e = (e.term < u64) × (e.index < u64)

abbrev pub AppendArgsFit : AppendEntriesArgs → Type 0
AppendArgsFit a =
    (a.term < u64)
    × (a.prev_log_index < u64)
    × (a.prev_log_term < u64)
    × (a.leader_commit < u64)
    × All EntryFits a.entries

module _ (K : Json) (F : IsFaithful K) where
  pub read_vote_args-value :
      (a : RequestVoteArgs) → VoteArgsFit a → read_vote_args K (vote_request_value K a) ≡ some a
  unfolding read_vote_args vote_request_value lookup text_eq
  read_vote_args-value a (t, i, l) = simp (
    F.index_object,
    F.get_text_text,
    F.get_unsigned_unsigned a.term t,
    F.get_unsigned_unsigned a.last_log_index i,
    F.get_unsigned_unsigned a.last_log_term l,
  )

  read_vote_reply-value :
      (r : RequestVoteReply) → r.term < u64 → read_vote_reply K (vote_reply_value K r) ≡ some r
  unfolding read_vote_reply vote_reply_value lookup text_eq
  read_vote_reply-value r t =
      simp (F.index_object, F.get_boolean_boolean, F.get_unsigned_unsigned r.term t)

  read_append_reply-value :
      (r : AppendEntriesReply)
      → r.term < u64
      → read_append_reply K (append_reply_value K r) ≡ some r
  unfolding read_append_reply append_reply_value lookup text_eq
  read_append_reply-value r t =
      simp (F.index_object, F.get_boolean_boolean, F.get_unsigned_unsigned r.term t)

  module _ {S : Type 0} (s : S) where
    const_member-returns :
        {A : Type 0} (get : K.Value → Option A) (v x : K.Value) (key : Text) (a : A)
        → K.index_const v key ≡ returns x
        → get x ≡ some a
        → const_member K get v key s ≡ (returns a, s)
    const_member-returns get v x key a there read = rw (there, read) refl

    read_entry-value :
        (e : LogEntry) → EntryFits e → read_entry K (entry_value K e) s ≡ (returns e, s)
    unfolding read_entry lookup text_eq
    read_entry-value e (t, i) =
        let v = entry_value K e in
        rw
          (
            const_member-returns K.get_unsigned v (K.unsigned e.term) (codes "term") e.term
                (F.index_const_object _ _) (F.get_unsigned_unsigned e.term t),
            const_member-returns K.get_unsigned v (K.unsigned e.index) (codes "index") e.index
                (F.index_const_object _ _) (F.get_unsigned_unsigned e.index i),
            const_member-returns K.get_text v (K.text e.key) (codes "key") e.key
                (F.index_const_object _ _) (F.get_text_text e.key),
            const_member-returns K.get_text v (K.text e.value) (codes "value") e.value
                (F.index_const_object _ _) (F.get_text_text e.value),
          )
          refl

    read_entries-values :
        (es : List LogEntry)
        → All EntryFits es
        → read_entries K (entry_values K es) s ≡ (returns es, s)
    unfolding read_entries
    read_entries-values [] fit = refl
    read_entries-values (e ∷ es) fit = simp (read_entry-value e fit.0, read_entries-values es fit.1)

    pub read_append_args-value :
        (a : AppendEntriesArgs)
        → AppendArgsFit a
        → read_append_args K (append_request_value K a) s ≡ (returns a, s)
    unfolding read_append_args read_all_entries append_request_value lookup text_eq
    read_append_args-value a (t, i, l, c, fit) = simp (
      F.index_object,
      F.get_text_text,
      F.get_unsigned_unsigned a.term t,
      F.get_unsigned_unsigned a.prev_log_index i,
      F.get_unsigned_unsigned a.prev_log_term l,
      F.get_unsigned_unsigned a.leader_commit c,
      F.contains_object,
      F.elements_array,
      read_entries-values a.entries fit,
    )

  -- The reply behind its word.
  pub vote_reply-read :
      (r : RequestVoteReply) (t : Text)
      → r.term < u64
      → K.parse t ≡ some (vote_reply_value K r)
      → read_reply K (read_vote_reply K) (codes "RAFT_REQUEST_VOTE_REPLY " ++ t) ≡ some r
  unfolding read_reply find
  vote_reply-read r t small parsed =
      ap (λ v. v >>= read_vote_reply K) parsed ∙ read_vote_reply-value r small

  pub append_reply-read :
      (r : AppendEntriesReply) (t : Text)
      → r.term < u64
      → K.parse t ≡ some (append_reply_value K r)
      → read_reply K (read_append_reply K) (codes "RAFT_APPEND_ENTRIES_REPLY " ++ t) ≡ some r
  unfolding read_reply find
  append_reply-read r t small parsed =
      ap (λ v. v >>= read_append_reply K) parsed ∙ read_append_reply-value r small
