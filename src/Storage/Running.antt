-- ===== src/Storage/Running.antt =====
-- Sequences of calls of a storage: of RocksDBStorage, of a StorageEngine, and of a map.
use yolo_server.Prelude.{
  ◌≡◌, refl, sym, ◌∙◌, subst, Bool, true, false, Option, none, some, List, [], ◌∷◌, Text, text_eq,
  text_eq_iff, Bool-cases, inl, inr, ◌⊎◌, Ensures,
}
use yolo_server.Storage.Database.{
  Database, IsKept, GetStatus, found, not_found, get_failed, value_of,
}
use yolo_server.Storage.RocksDbStorage.{RocksDbStorage, put_value, get_value}
use yolo_server.Storage.StorageEngine.{StorageEngine, rocks_db_engine, put_engine, get_engine}

pub data Call : Type 0 where
  put_call : Text → Text → Call
  get_call : Text → Call

pub data Answer : Type 0 where
  done : Bool → Answer
  got : Option Text → Answer

-- The answers of a StorageEngine.
module _ (S : StorageEngine) where
  abbrev pub call_engine : Call → S.World → Answer × S.World
  call_engine (put_call k v) w = let (ok, w1) = S.put k v w in (done ok, w1)
  call_engine (get_call k) w = let (o, w1) = S.get k w in (got o, w1)

  abbrev pub run_engine : List Call → S.World → List Answer × S.World
  run_engine [] w = ([], w)
  run_engine (c ∷ cs) w =
      let (a, w1) = call_engine c w in let (answers, w2) = run_engine cs w1 in (a ∷ answers, w2)

-- The answers of RocksDBStorage; `none` is the use of a null pointer.
module _ (D : Database) where
  abbrev pub answered :
      {A : Type 0} → (A → Answer) → Option (A × D.World) → Option (Answer × D.World)
  answered f none = none
  answered f (some (a, w)) = some (f a, w)

  abbrev pub call_storage : RocksDbStorage → Call → D.World → Option (Answer × D.World)
  call_storage s (put_call k v) w = answered done (put_value D s k v w)
  call_storage s (get_call k) w = answered got (get_value D s k w)

  abbrev before : Answer → Option (List Answer × D.World) → Option (List Answer × D.World)
  before a none = none
  before a (some (answers, w)) = some (a ∷ answers, w)

  abbrev pub run_storage : RocksDbStorage → List Call → D.World → Option (List Answer × D.World)
  run_storage s [] w = some ([], w)
  run_storage s (c ∷ cs) w = elim (call_storage s c w) [
    | none ↦ none
    | some (a, w1) ↦ before a (run_storage s cs w1)
  ]

-- What the value of a key may be.
abbrev pub Possible : Type 1
Possible = Text → Option Text → Type 0

-- The key has the value.
abbrev pub only : Possible → Text → Text → Possible
only P k v j o = (text_eq k j ≡ true → o ≡ some v) × (text_eq k j ≡ false → P j o)

-- The key may have the value too.
abbrev pub also : Possible → Text → Text → Possible
also P k v j o = P j o ⊎ ((text_eq k j ≡ true) × (o ≡ some v))

module _ (D : Database) where
  -- The database may fail to read the key.
  abbrev pub CanFail : Text → Type 0
  CanFail k = (w : D.World) × ((D.get k w).0 ≡ get_failed)

  -- The answers of a map of which some values are not known: after a put that says true the key has
  -- the value, after one that says false it has it or what it had; a get that gives a value gives one
  -- that the key may have, and then has, and one that gives none says that the key may be missing or
  -- that reading it may fail.
  abbrev pub AreMapAnswers : Possible → List Call → List Answer → Type 0
  AreMapAnswers P [] [] = Unit
  AreMapAnswers P (put_call k v ∷ cs) (done true ∷ rest) = AreMapAnswers (only P k v) cs rest
  AreMapAnswers P (put_call k v ∷ cs) (done false ∷ rest) = AreMapAnswers (also P k v) cs rest
  AreMapAnswers P (get_call k ∷ cs) (got (some v) ∷ rest) =
      P k (some v) × AreMapAnswers (only P k v) cs rest
  AreMapAnswers P (get_call k ∷ cs) (got none ∷ rest) =
      (P k none ⊎ CanFail k) × AreMapAnswers P cs rest
  AreMapAnswers P _ _ = ⊥

module _ (D : Database) (I : IsKept D) where
  open I use {contents}

  -- The contents are possible.
  abbrev Shows : Possible → D.World → Type 0
  Shows P w = (j : Text) → P j (contents w j)

  -- A key that has the value, with the others as they were.
  Shows-only :
      (P : Possible) (k v : Text) (w w' : D.World)
      → contents w' k ≡ some v
      → ((j : Text) → text_eq k j ≡ false → contents w' j ≡ contents w j)
      → Shows P w
      → Shows (only P k v) w'
  Shows-only P k v w w' there others shows j = (
    λ same. subst (λ i. contents w' i ≡ some v) ((text_eq_iff k j).0 same) there,
    λ other. subst (P j) (sym (others j other)) (shows j),
  )

  put-also :
      (P : Possible) (k v : Text) (w : D.World)
      → (D.put k v w).0 ≡ false
      → Shows P w
      → Shows (also P k v) (D.put k v w).1
  put-also P k v w failed shows j = elim (Bool-cases (text_eq k j)) [
    | inr other ↦ inl (subst (P j) (sym (I.put_aside k v j w other)) (shows j))
    | inl same ↦
        let key = (text_eq_iff k j).0 same in
        subst (λ i. also P k v i (contents (D.put k v w).1 i)) key
          (elim (I.put_undone k v w failed) [
            | inl kept ↦ inl (subst (P k) (sym kept) (shows k))
            | inr new ↦ inr ((text_eq_iff k k).1 refl, new)
          ])
  ]

  -- A get, and the answers that follow it.
  get_answers :
      (k : Text) (cs : List Call) (answers : List Answer) (P : Possible) (w : D.World)
      (status : GetStatus)
      → (D.get k w).0 ≡ status
      → Shows P w
      → ((P' : Possible) → Shows P' (D.get k w).1 → AreMapAnswers D P' cs answers)
      → AreMapAnswers D P (get_call k ∷ cs) (got (value_of status) ∷ answers)
  get_answers k cs answers P w (found v) read shows rest =
      let there = I.get_found k v w read in
      (
        subst (P k) there (shows k),
        rest (only P k v) (
            Shows-only P k v w (D.get k w).1 (I.get_same k k w ∙ there)
              (λ j other. I.get_same k j w) shows),
      )
  get_answers k cs answers P w not_found read shows rest = (
    inl (subst (P k) (I.get_not_found k w read) (shows k)),
    rest P (λ j. subst (P j) (sym (I.get_same k j w)) (shows j)),
  )
  get_answers k cs answers P w get_failed read shows rest =
      (inr (w, read), rest P (λ j. subst (P j) (sym (I.get_same k j w)) (shows j)))

  engine_answers :
      (cs : List Call) (P : Possible) (w : D.World)
      → Shows P w
      → AreMapAnswers D P cs (run_engine (rocks_db_engine D) cs w).0
  unfolding put_engine get_engine
  engine_answers [] P w shows = tt
  engine_answers (get_call k ∷ cs) P w shows =
      get_answers k cs (run_engine (rocks_db_engine D) cs (D.get k w).1).0 P w (D.get k w).0 refl
        shows (λ P' shows'. engine_answers cs P' (D.get k w).1 shows')
  engine_answers (put_call k v ∷ cs) P w shows =
      let w1 = (D.put k v w).1 in
      elim (Bool-cases (D.put k v w).0) [
        | inl ok ↦ rw ok (
            engine_answers cs (only P k v) w1
              (Shows-only P k v w w1 (I.put_done k v w ok) (λ j. I.put_aside k v j w) shows))
        | inr failed ↦ rw failed (engine_answers cs (also P k v) w1 (put-also P k v w failed shows))
      ]

abbrev opened_storage : RocksDbStorage
opened_storage = record { is_open = true }

run_opened :
    (D : Database) (cs : List Call) (w : D.World)
    → run_storage D opened_storage cs w ≡ some (run_engine (rocks_db_engine D) cs w)
unfolding put_value get_value put_engine get_engine
run_opened D [] w = refl
run_opened D (get_call k ∷ cs) w = rw (run_opened D cs (D.get k w).1) refl
run_opened D (put_call k v ∷ cs) w = elim (Bool-cases (D.put k v w).0) [
  | inl ok ↦ rw (ok, run_opened D cs (D.put k v w).1) refl
  | inr failed ↦ rw (failed, run_opened D cs (D.put k v w).1) refl
]

-- An open RocksDBStorage answers every sequence of puts and gets as a RocksDBEngine over the same
-- database does, and leaves the same database; it uses no null pointer.
pub run_storage-run_engine :
    (D : Database) (s : RocksDbStorage) (cs : List Call) (w : D.World)
    → s.is_open ≡ true
    → run_storage D s cs w ≡ some (run_engine (rocks_db_engine D) cs w)
run_storage-run_engine D s cs w opened =
    subst
      (λ b.
        run_storage D (record { is_open = b }) cs w ≡ some (run_engine (rocks_db_engine D) cs w))
      (sym opened) (run_opened D cs w)

-- An open RocksDBStorage answers every sequence of puts and gets as a map does that begins with the
-- contents of the database, whichever calls of RocksDB fail: after a put that returned true the key has
-- the value, after one that returned false it has that value or the one before; a get that returns a
-- value returns the key's, and one that returns none says that the key is missing or that reading it
-- may fail. No null pointer is used.
pub storage-AreMapAnswers :
    (D : Database) (I : IsKept D) (s : RocksDbStorage) (cs : List Call) (w : D.World)
    → s.is_open ≡ true
    → Ensures (λ r. AreMapAnswers D (λ j o. I.contents w j ≡ o) cs r.0) (run_storage D s cs w)
storage-AreMapAnswers D I s cs w opened =
    rw (run_storage-run_engine D s cs w opened)
      (engine_answers D I cs (λ j o. I.contents w j ≡ o) w (λ j. refl))
