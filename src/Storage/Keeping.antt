-- ===== src/Storage/Keeping.antt =====
-- What storage/RocksDBStorage.cpp keeps, over a database that keeps what is put.
use mathlib.Core.Bool.{false≢true, true≢false}
use yolo_server.Prelude.{◌≡◌, ◌≢◌, ◌∙◌, Bool, true, false, some, Text, if_cases, Ensures}
use yolo_server.Storage.Database.{Database, IsDurable, value_of}
use yolo_server.Storage.RocksDbStorage.{RocksDbStorage, put_value, get_value}

module _ (D : Database) (I : IsDurable D) where
  open I use {stored}

  -- Over a database that keeps what is put, an open storage returns from put and get; after a put
  -- that returned true a get of the key gives the value, after one that returned false what was
  -- stored; a get of any other key gives what was stored.
  pub put_value-get_value :
      (s : RocksDbStorage) (key value other : Text) (w : D.World)
      → s.is_open ≡ true
      → other ≢ key
      → Ensures
          (λ r.
            Ensures
              (λ g. (r.0 ≡ true → g.0 ≡ some value) × (r.0 ≡ false → g.0 ≡ stored w key))
              (get_value D s key r.1)
            × Ensures (λ g. g.0 ≡ stored w other) (get_value D s other r.1))
          (put_value D s key value w)
  unfolding put_value get_value
  put_value-get_value s key value other w opened apart = rw opened (
      if_cases After (D.put key value w).0 _ _
        (λ ok. (
          (λ h. I.get_value key w1 ∙ I.put_same key value w ok, λ h. absurd (true≢false h)),
          I.get_value other w1 ∙ I.put_other key value other w apart,
        ))
        (λ failed. (
          (λ h. absurd (false≢true h), λ h. I.get_value key w1 ∙ I.put_failed key value w failed),
          I.get_value other w1 ∙ I.put_other key value other w apart,
        )))
    where
      w1 : D.World
      w1 = (D.put key value w).1

      After : Bool × D.World → Type 0
      After r =
          ((r.0 ≡ true → value_of (D.get key r.1).0 ≡ some value)
            × (r.0 ≡ false → value_of (D.get key r.1).0 ≡ stored w key))
          × (value_of (D.get other r.1).0 ≡ stored w other)
