-- ===== src/Raft/Merging.antt =====
-- The merge loop of handleAppendEntries in raft/RaftNode.cpp.
use yolo_server.Prelude.{
  ℕ, suc, ◌+◌, ◌≤◌, ◌<◌, ◌≡◌, refl, sym, ap, ◌∙◌, true, List, [], ◌∷◌, ◌++◌, arith, ==_iff, inl,
  inr, ◌⊎◌, Option-cases, length, length-append, length-take, get_elem?, get_elem?-some,
  get_elem?-none, take, take-append, take-take, append-nil, subst, append_assoc, get_elem?_of_take,
  get_elem?-append_length,
}
use yolo_server.Raft.Types.{LogEntry, AppendEntriesArgs}
use yolo_server.Raft.Node.{reconcile, merge_entries, log_matches}
use yolo_server.Raft.Log.{
  IndexedFrom, Contains, Holds, Respects, Merge, covered, extended, agreed, replaced,
  merge_entries-Merge, Merge-IndexedFrom,
}

-- A prefix that ends before the new entries survives.
Merge-take_before :
    {logs : List LogEntry} {next : ℕ} {es merged : List LogEntry} (n : ℕ)
    → n ≤ next
    → next ≤ length logs
    → Merge logs next es merged
    → take n merged ≡ take n logs
Merge-take_before {logs} n h le (covered next merged eq) = ap (take n) eq
Merge-take_before {logs} n h le (extended next es merged gone eq) =
    ap (take n) eq ∙ take-append n logs es (omega arith)
Merge-take_before {logs} n h le (agreed next l e es merged there same m) =
    Merge-take_before n (omega arith) (omega (arith, get_elem?-some logs next there)) m
Merge-take_before {logs} n h le (replaced next l e es merged there other eq) =
    ap (take n) eq
    ∙ take-append n (take next logs) (e ∷ es) (omega (arith, length-take next logs))
    ∙ take-take n next logs h

-- So does a prefix that the request does not contradict.
pub Merge-take :
    {logs : List LogEntry} {next : ℕ} {es merged : List LogEntry} (bound : ℕ)
    → bound < length logs
    → next ≤ length logs
    → Respects bound logs next es
    → Merge logs next es merged
    → take (suc bound) merged ≡ take (suc bound) logs
Merge-take {logs} bound h le ok (covered next merged eq) = ap (take (suc bound)) eq
Merge-take {logs} bound h le ok (extended next es merged gone eq) =
    ap (take (suc bound)) eq ∙ take-append (suc bound) logs es h
Merge-take {logs} bound h le ok (agreed next l e es merged there same m) =
    Merge-take bound h (omega (arith, get_elem?-some logs next there)) ok.1 m
Merge-take {logs} bound h le ok (replaced next l e es merged there other eq) =
    Merge-take_before (suc bound) above le (replaced next l e es merged there other eq)
  where
    above : suc bound ≤ next
    above = grind (arith, ok.0 l, there, other)

-- The merge never shortens the log below the request's start, nor below a bound it respects.
pub Merge-length :
    {logs : List LogEntry} {next : ℕ} {es merged : List LogEntry}
    → next ≤ length logs
    → Merge logs next es merged
    → next + length es ≤ length merged
Merge-length {logs} le (covered next merged eq) = omega (arith, ap length eq)
Merge-length {logs} le (extended next es merged gone eq) =
    omega (arith, ap length eq, length-append logs es, get_elem?-none logs next gone)
Merge-length {logs} le (agreed next l e es merged there same m) =
    omega (arith, Merge-length (omega (arith, get_elem?-some logs next there)) m)
Merge-length {logs} le (replaced next l e es merged there other eq) =
    omega (arith, ap length eq, length-append (take next logs) (e ∷ es), length-take next logs)

Contains-append :
    (xs es : List LogEntry) (next : ℕ) → next ≡ length xs → Contains (xs ++ es) next es
Contains-append xs [] next h = tt
Contains-append xs (e ∷ es) next h = (
  (e, ap (get_elem? (xs ++ e ∷ es)) h ∙ get_elem?-append_length xs e es, refl),
  subst (λ m. Contains m (next + 1) es) (append_assoc xs (e ∷ []) es)
      (Contains-append (xs ++ e ∷ []) es (next + 1) (omega (arith, length-append xs (e ∷ [])))),
)

-- After a merge every entry of the request has an entry of its term at its position.
pub Merge-Contains :
    {logs : List LogEntry} {next : ℕ} {es merged : List LogEntry}
    → next ≤ length logs
    → Merge logs next es merged
    → Contains merged next es
Merge-Contains {logs} le (covered next merged eq) = tt
Merge-Contains {logs} le (extended next es merged gone eq) =
    subst (λ m. Contains m next es) (sym eq)
      (Contains-append logs es next (omega (arith, get_elem?-none logs next gone)))
Merge-Contains {logs} le (agreed next l e es merged there same m) = (
  (
    l,
    get_elem?_of_take (next + 1) next merged logs
          (Merge-take_before (next + 1) (omega arith) below m) (omega arith)
        ∙ there,
    same,
  ),
  Merge-Contains below m,
)
  where
    below : next + 1 ≤ length logs
    below = omega (arith, get_elem?-some logs next there)
Merge-Contains {logs} le (replaced next l e es merged there other eq) =
    subst (λ m. Contains m next (e ∷ es)) (sym eq)
      (Contains-append (take next logs) (e ∷ es) next (omega (arith, length-take next logs)))

Holds-append :
    (old xs es : List LogEntry) (next : ℕ) → next ≡ length xs → Holds old (xs ++ es) next es
Holds-append old xs [] next h = tt
Holds-append old xs (e ∷ es) next h = (
  inl (ap (get_elem? (xs ++ e ∷ es)) h ∙ get_elem?-append_length xs e es),
  subst (λ m. Holds old m (next + 1) es) (append_assoc xs (e ∷ []) es)
      (Holds-append old (xs ++ e ∷ []) es (next + 1) (omega (arith, length-append xs (e ∷ [])))),
)

-- After a merge each position of the request has its entry, or the old one of the same term.
Merge-Holds :
    {logs : List LogEntry} {next : ℕ} {es merged : List LogEntry}
    → next ≤ length logs
    → Merge logs next es merged
    → Holds logs merged next es
Merge-Holds {logs} le (covered next merged eq) = tt
Merge-Holds {logs} le (extended next es merged gone eq) =
    subst (λ m. Holds logs m next es) (sym eq)
      (Holds-append logs logs es next (omega (arith, get_elem?-none logs next gone)))
Merge-Holds {logs} le (agreed next l e es merged there same m) = (
  inr (
    l,
    there,
    same,
    get_elem?_of_take (next + 1) next merged logs
          (Merge-take_before (next + 1) (omega arith) below m) (omega arith)
        ∙ there,
  ),
  Merge-Holds below m,
)
  where
    below : next + 1 ≤ length logs
    below = omega (arith, get_elem?-some logs next there)
Merge-Holds {logs} le (replaced next l e es merged there other eq) =
    subst (λ m. Holds logs m next (e ∷ es)) (sym eq)
      (Holds-append logs (take next logs) (e ∷ es) next (omega (arith, length-take next logs)))

-- A merge that finds an entry missing or different ends the log with the request's last entry.
Merge-length_ends :
    {logs : List LogEntry} {next : ℕ} {es merged : List LogEntry}
    → next ≤ length logs
    → Merge logs next es merged
    → Contains logs next es ⊎ (length merged ≡ next + length es)
Merge-length_ends {logs} le (covered next merged eq) = inl tt
Merge-length_ends {logs} le (extended next es merged gone eq) =
    inr (omega (arith, ap length eq, length-append logs es, get_elem?-none logs next gone))
Merge-length_ends {logs} le (agreed next l e es merged there same m) =
    elim (Merge-length_ends (omega (arith, get_elem?-some logs next there)) m) [
      | inl rest ↦ inl ((l, there, same), rest)
      | inr ends ↦ inr (omega (arith, ends))
    ]
Merge-length_ends {logs} le (replaced next l e es merged there other eq) =
    inr
      (omega (arith, ap length eq, length-append (take next logs) (e ∷ es), length-take next logs))

-- A log that contains the entries is left as it is.
reconcile_of_Contains :
    (logs : List LogEntry) (next : ℕ) (es : List LogEntry)
    → Contains logs next es
    → reconcile logs next es ≡ (logs, [])
unfolding reconcile
reconcile_of_Contains logs next [] c = refl
reconcile_of_Contains logs next (e ∷ es) ((l, there, same), rest) =
    rw (there, (==_iff l.term e.term).1 same, reconcile)
      (reconcile_of_Contains logs (next + 1) es rest)

Merge-length_le :
    {logs : List LogEntry} {next : ℕ} {es merged : List LogEntry}
    → next ≤ length logs
    → Merge logs next es merged
    → length merged ≤ length logs + length es
Merge-length_le {logs} le (covered next merged eq) = omega (arith, ap length eq)
Merge-length_le {logs} le (extended next es merged gone eq) =
    omega (arith, ap length eq, length-append logs es)
Merge-length_le {logs} le (agreed next l e es merged there same m) =
    omega (arith, Merge-length_le (omega (arith, get_elem?-some logs next there)) m)
Merge-length_le {logs} le (replaced next l e es merged there other eq) =
    omega (arith, ap length eq, length-append (take next logs) (e ∷ es), length-take next logs)

module _ (logs : List LogEntry) (args : AppendEntriesArgs)
    (start : args.prev_log_index < length logs) where
  open args use {prev_log_index, entries}

  from_start : prev_log_index + 1 ≤ length logs
  from_start = omega arith

  pub merge_entries-Contains : Contains (merge_entries logs args) (prev_log_index + 1) entries
  merge_entries-Contains = Merge-Contains from_start (merge_entries-Merge logs args)

  pub merge_entries-Holds : Holds logs (merge_entries logs args) (prev_log_index + 1) entries
  merge_entries-Holds = Merge-Holds from_start (merge_entries-Merge logs args)

  pub merge_entries_ends :
      Contains logs (prev_log_index + 1) entries
      ⊎ (length (merge_entries logs args) ≡ prev_log_index + 1 + length entries)
  merge_entries_ends = Merge-length_ends from_start (merge_entries-Merge logs args)

  -- A request that starts inside the log and is merged twice gives the log that it gives once.
  pub merge_entries_idem : merge_entries (merge_entries logs args) args ≡ merge_entries logs args
  unfolding merge_entries
  merge_entries_idem =
      rw
        (
          reconcile_of_Contains (merge_entries logs args) _ entries merge_entries-Contains,
          merge_entries,
        )
        (append-nil (merge_entries logs args))

  pub take-merge_entries :
      (bound : ℕ)
      → bound < length logs
      → Respects bound logs (prev_log_index + 1) entries
      → take (suc bound) (merge_entries logs args) ≡ take (suc bound) logs
  take-merge_entries bound h ok = Merge-take bound h from_start ok (merge_entries-Merge logs args)

  -- Nothing up to the entry before the new ones changes.
  pub take-merge_before :
      take (prev_log_index + 1) (merge_entries logs args) ≡ take (prev_log_index + 1) logs
  take-merge_before =
      Merge-take_before (prev_log_index + 1) (omega arith) from_start
        (merge_entries-Merge logs args)

  -- A request whose entries are there already changes nothing.
  pub merge_entries_there :
      Contains logs (prev_log_index + 1) entries → merge_entries logs args ≡ logs
  unfolding merge_entries
  merge_entries_there there = rw (reconcile_of_Contains logs _ entries there) (append-nil logs)

  pub length-merge_entries : prev_log_index + 1 + length entries ≤ length (merge_entries logs args)
  length-merge_entries = Merge-length from_start (merge_entries-Merge logs args)

  pub merge_entries-IndexedFrom :
      IndexedFrom 0 logs
      → IndexedFrom (prev_log_index + 1) entries
      → IndexedFrom 0 (merge_entries logs args)
  merge_entries-IndexedFrom hl he =
      Merge-IndexedFrom hl from_start he (merge_entries-Merge logs args)

  pub length-merge_entries_le : length (merge_entries logs args) ≤ length logs + length entries
  length-merge_entries_le = Merge-length_le from_start (merge_entries-Merge logs args)

-- A request that the log check accepts starts inside the log.
pub log_matches_lt :
    (logs : List LogEntry) (args : AppendEntriesArgs)
    → log_matches logs args ≡ true
    → args.prev_log_index < length logs
unfolding log_matches
log_matches_lt logs args h = elim (Option-cases (get_elem? logs args.prev_log_index)) [
  | inl gone ↦ absurd (ground arith)
  | inr (l, there) ↦ get_elem?-some logs args.prev_log_index there
]
