-- ===== src/Storage/RocksDbStorage.antt =====
-- storage/RocksDBStorage.cpp. The object is whether m_db is set.
use yolo_server.Prelude.{Bool, true, false, Option, none, some, Text, if◌then◌else◌}
use yolo_server.Prelude.Exec.{Outcome, returns, throws}
use yolo_server.Storage.Database.{Database, value_of}

pub record RocksDbStorage : Type 0 where
  pub is_open : Bool

module _ (D : Database) where
  open D use {World, create_directories, open_db, put, get}

  -- open: an error of RocksDB is thrown, so false is never returned.
  unfoldable pub open_storage :
      Text → RocksDbStorage → World → Outcome Bool × RocksDbStorage × World
  open_storage path s w =
      let (ok, w1) = open_db path (create_directories path w) in
      if ok then (returns true, record s { is_open = true }, w1) else (throws, s, w1)

  -- put; `none` is the use of a null pointer.
  unfoldable pub put_value : RocksDbStorage → Text → Text → World → Option (Bool × World)
  put_value s key value w =
      let (ok, w1) = put key value w in
      if s.is_open then some (if ok then (true, w1) else (false, w1)) else none

  -- get
  unfoldable pub get_value : RocksDbStorage → Text → World → Option (Option Text × World)
  get_value s key w =
      let (status, w1) = get key w in if s.is_open then some (value_of status, w1) else none
