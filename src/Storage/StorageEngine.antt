-- ===== src/Storage/StorageEngine.antt =====
-- datebase/StorageEngine.h, and the class RocksDBEngine behind it (datebase/RocksDBEngine.cpp). An
-- object of this class exists once its constructor has returned, so it has no state but the database.
use yolo_server.Prelude.{not, Bool, true, false, Option, Text, if◌then◌else◌}
use yolo_server.Prelude.Exec.{Outcome, returns, throws}
use yolo_server.Storage.Database.{Database, value_of}

-- The virtual methods.
pub record StorageEngine : Type 1 where
  pub World : Type 0
  pub put : Text → Text → World → Bool × World
  pub get : Text → World → Option Text × World

module _ (D : Database) where
  open D use {World}

  -- The constructor. It makes no directories.
  unfoldable pub open_engine : Text → World → Outcome (Unit {0}) × World
  open_engine path w =
      let (ok, w1) = D.open_db path w in if ok then (returns tt, w1) else (throws, w1)

  unfoldable pub put_engine : Text → Text → World → Bool × World
  put_engine key value w =
      let (ok, w1) = D.put key value w in if not ok then (false, w1) else (true, w1)

  unfoldable pub get_engine : Text → World → Option Text × World
  get_engine key w = let (status, w1) = D.get key w in (value_of status, w1)

  abbrev pub rocks_db_engine : StorageEngine
  rocks_db_engine = record { World = D.World; put = put_engine; get = get_engine }
