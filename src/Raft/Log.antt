-- ===== src/Raft/Log.antt =====
-- The log of raft/RaftNode.cpp and the merge loop of handleAppendEntries.
use yolo_server.Prelude.{
  ℕ, zero, suc, ◌+◌, ◌≤◌, ◌≡◌, ◌≢◌, none, some, List, [], ◌∷◌, ◌++◌, arith, ◌==◌, ==_iff, inl, inr,
  ◌⊎◌, Bool-cases, Option-cases, length, length-take, get_elem?, get_elem?-some, get_elem?-none,
  take, append-nil, subst, sym, refl, ◌∙◌, back, back-get_elem?, ◌<◌,
}
use yolo_server.Raft.Types.{LogEntry, AppendEntriesArgs}
use yolo_server.Raft.Node.{reconcile, merge_entries}

-- The positions of the entries, counted from `i`, are the indices that they carry.
abbrev pub IndexedFrom : ℕ → List LogEntry → Type 0
IndexedFrom i [] = Unit
IndexedFrom i (e ∷ es) = (e.index ≡ i) × IndexedFrom (suc i) es

-- At each position from `next` on the log has an entry of the same term as the given one.
abbrev pub Contains : List LogEntry → ℕ → List LogEntry → Type 0
Contains logs next [] = Unit
Contains logs next (e ∷ es) =
    ((l : LogEntry) × (get_elem? logs next ≡ some l) × (l.term ≡ e.term))
    × Contains logs (next + 1) es

-- At each position from `next` on the new log has the given entry itself, or the entry that the old log
-- had there, of the same term.
abbrev pub Holds : List LogEntry → List LogEntry → ℕ → List LogEntry → Type 0
Holds old new next [] = Unit
Holds old new next (e ∷ es) =
    ((get_elem? new next ≡ some e)
      ⊎ ((l : LogEntry) × (get_elem? old next ≡ some l)
          × (l.term ≡ e.term)
          × (get_elem? new next ≡ some l)))
    × Holds old new (next + 1) es

-- No entry of the request contradicts the log at or below position `bound`.
abbrev pub Respects : ℕ → List LogEntry → ℕ → List LogEntry → Type 0
Respects bound logs next [] = Unit
Respects bound logs next (e ∷ es) =
    ((l : LogEntry) → next ≤ bound → get_elem? logs next ≡ some l → l.term ≡ e.term)
    × Respects bound logs (next + 1) es

-- What the merge of `es` at `next` may be, as a relation between the logs before and after it.
pub data Merge (logs : List LogEntry) : ℕ → List LogEntry → List LogEntry → Type 0 where
  covered : (next : ℕ) (merged : List LogEntry) → merged ≡ logs → Merge logs next [] merged
  extended :
      (next : ℕ) (es merged : List LogEntry)
      → get_elem? logs next ≡ none
      → merged ≡ logs ++ es
      → Merge logs next es merged
  agreed :
      (next : ℕ) (l e : LogEntry) (es merged : List LogEntry)
      → get_elem? logs next ≡ some l
      → l.term ≡ e.term
      → Merge logs (next + 1) es merged
      → Merge logs next (e ∷ es) merged
  replaced :
      (next : ℕ) (l e : LogEntry) (es merged : List LogEntry)
      → get_elem? logs next ≡ some l
      → l.term ≢ e.term
      → merged ≡ take next logs ++ e ∷ es
      → Merge logs next (e ∷ es) merged

abbrev pub merge_from : List LogEntry → ℕ → List LogEntry → List LogEntry
merge_from logs next es = (reconcile logs next es).0 ++ (reconcile logs next es).1

reconcile-Merge :
    (logs : List LogEntry) (next : ℕ) (es : List LogEntry)
    → Merge logs next es (merge_from logs next es)
unfolding reconcile
reconcile-Merge logs next [] = covered next _ (append-nil logs)
reconcile-Merge logs next (e ∷ es) = elim (Option-cases (get_elem? logs next)) [
  | inl gone ↦ extended next (e ∷ es) _ gone (rw (gone, reconcile))
  | inr (l, there) ↦ elim (Bool-cases (l.term == e.term)) [
    | inl same ↦
        agreed next l e es _ there ((==_iff l.term e.term).0 same)
          (rw (there, same, reconcile) (reconcile-Merge logs (next + 1) es))
    | inr other ↦
        replaced next l e es _ there (λ eq. cc (other, (==_iff l.term e.term).1 eq))
          (rw (there, other, reconcile))
  ]
]

-- The merge loop does what the relation allows.
pub merge_entries-Merge :
    (logs : List LogEntry) (args : AppendEntriesArgs)
    → Merge logs (args.prev_log_index + 1) args.entries (merge_entries logs args)
unfolding merge_entries
merge_entries-Merge logs args = reconcile-Merge logs (args.prev_log_index + 1) args.entries

-- Indices.
pub IndexedFrom-append :
    (i : ℕ) (xs ys : List LogEntry)
    → IndexedFrom i xs
    → IndexedFrom (i + length xs) ys
    → IndexedFrom i (xs ++ ys)
IndexedFrom-append i [] ys hx hy = subst (λ k. IndexedFrom k ys) (omega arith) hy
IndexedFrom-append i (x ∷ xs) ys hx hy =
    (hx.0, IndexedFrom-append (suc i) xs ys hx.1 (subst (λ k. IndexedFrom k ys) (omega arith) hy))

IndexedFrom-take : (i n : ℕ) (xs : List LogEntry) → IndexedFrom i xs → IndexedFrom i (take n xs)
IndexedFrom-take i zero xs h = tt
IndexedFrom-take i (suc n) [] h = tt
IndexedFrom-take i (suc n) (x ∷ xs) h = (h.0, IndexedFrom-take (suc i) n xs h.1)

pub IndexedFrom-get_elem? :
    (i n : ℕ) (xs : List LogEntry) {e : LogEntry}
    → IndexedFrom i xs
    → get_elem? xs n ≡ some e
    → e.index ≡ i + n
IndexedFrom-get_elem? i n [] h x = absurd (ground arith)
IndexedFrom-get_elem? i zero (x ∷ xs) h p = ground arith
IndexedFrom-get_elem? i (suc n) (x ∷ xs) {e} h p =
    omega (arith, IndexedFrom-get_elem? (suc i) n xs {e = e} h.1 p)

-- A merge keeps positions and indices together.
pub Merge-IndexedFrom :
    {logs : List LogEntry} {next : ℕ} {es merged : List LogEntry}
    → IndexedFrom 0 logs
    → next ≤ length logs
    → IndexedFrom next es
    → Merge logs next es merged
    → IndexedFrom 0 merged
Merge-IndexedFrom {logs} hl le he (covered next merged eq) = rw eq hl
Merge-IndexedFrom {logs} hl le he (extended next es merged gone eq) = rw eq (
    IndexedFrom-append 0 logs es hl
      (subst (λ k. IndexedFrom k es) (omega (arith, get_elem?-none logs next gone)) he))
Merge-IndexedFrom {logs} hl le he (agreed next l e es merged there same m) =
    Merge-IndexedFrom hl (omega (arith, get_elem?-some logs next there))
      (subst (λ k. IndexedFrom k es) (omega arith) he.1) m
Merge-IndexedFrom {logs} hl le he (replaced next l e es merged there other eq) = rw eq (
    IndexedFrom-append 0 (take next logs) (e ∷ es) (IndexedFrom-take 0 next logs hl)
      (subst (λ k. IndexedFrom k (e ∷ es)) (omega (arith, length-take next logs)) he))

-- The last entry carries the last position.
pub back-IndexedFrom :
    (logs : List LogEntry) {last : LogEntry}
    → IndexedFrom 0 logs
    → back logs ≡ some last
    → last.index + 1 ≡ length logs
back-IndexedFrom [] h x = absurd (ground arith)
back-IndexedFrom (e ∷ es) {last} h x = omega (
  arith,
  IndexedFrom-get_elem? 0 (length es) (e ∷ es) {e = last} h
      (sym (back-get_elem? (e ∷ es) (length es) refl) ∙ x),
)

pub back-some :
    (logs : List LogEntry) → 0 < length logs → (last : LogEntry) × (back logs ≡ some last)
back-some [] h = elim h [ ]
back-some (e ∷ []) h = (e, refl)
back-some (e ∷ f ∷ es) h = back-some (f ∷ es) (omega arith)
