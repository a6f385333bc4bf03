-- ===== src/Storage/Database.antt =====
-- The calls of RocksDB that storage/RocksDBStorage.cpp makes, and what is documented of them.
use yolo_server.Prelude.{◌≡◌, ◌≢◌, Bool, true, false, ◌⊎◌, text_eq, Option, none, some, Text}

-- The status of a Get, with the value that it read.
pub data GetStatus : Type 0 where
  found : Text → GetStatus
  not_found get_failed : GetStatus

pub record Database : Type 1 where
  pub World : Type 0
  -- create_directories of the parent folder; its exception is caught and logged.
  pub create_directories : Text → World → World
  -- DB::Open with create_if_missing: whether the status is ok.
  pub open_db : Text → World → Bool × World
  pub put : Text → Text → World → Bool × World
  pub get : Text → World → GetStatus × World

abbrev pub value_of : GetStatus → Option Text
value_of (found v) = some v
value_of not_found = none
value_of get_failed = none

-- The contents: a Put with status ok is seen by every later Get that succeeds, one that fails may be seen
-- or not, and a Get changes nothing and may fail.
pub record IsKept (D : Database) : Type 0 where
  pub contents : D.World → Text → Option Text
  pub put_done :
      (k v : Text) (w : D.World) → (D.put k v w).0 ≡ true → contents (D.put k v w).1 k ≡ some v
  pub put_undone :
      (k v : Text) (w : D.World)
      → (D.put k v w).0 ≡ false
      → (contents (D.put k v w).1 k ≡ contents w k) ⊎ (contents (D.put k v w).1 k ≡ some v)
  pub put_aside :
      (k v j : Text) (w : D.World) → text_eq k j ≡ false → contents (D.put k v w).1 j ≡ contents w j
  pub get_found : (k v : Text) (w : D.World) → (D.get k w).0 ≡ found v → contents w k ≡ some v
  pub get_not_found : (k : Text) (w : D.World) → (D.get k w).0 ≡ not_found → contents w k ≡ none
  pub get_same : (k j : Text) (w : D.World) → contents (D.get k w).1 j ≡ contents w j

-- A database that does not fail: a Put without the status ok changes nothing, and each Get succeeds.
pub record IsDurable (D : Database) : Type 0 where
  pub stored : D.World → Text → Option Text
  pub put_same :
      (k v : Text) (w : D.World) → (D.put k v w).0 ≡ true → stored (D.put k v w).1 k ≡ some v
  pub put_other : (k v j : Text) (w : D.World) → j ≢ k → stored (D.put k v w).1 j ≡ stored w j
  pub put_failed :
      (k v : Text) (w : D.World) → (D.put k v w).0 ≡ false → stored (D.put k v w).1 k ≡ stored w k
  pub get_value : (k : Text) (w : D.World) → value_of (D.get k w).0 ≡ stored w k
  pub get_keeps : (k j : Text) (w : D.World) → stored (D.get k w).1 j ≡ stored w j
