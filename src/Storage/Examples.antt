-- ===== src/Storage/Examples.antt =====
-- The theorems on storage/RocksDBStorage.cpp over a map in memory, which may fail.
use yolo_server.Prelude.{
  Text, Bool, Bool-cases, false, some, ◌≡◌, ◌≢◌, sym, ap, ◌∙◌, inl, inr, text_eq, if◌then◌else◌,
  refl, true, List, [], ◌∷◌, codes, Ensures,
}
use yolo_server.Storage.RocksDbStorage.{RocksDbStorage}
use yolo_server.Storage.Running.{
  Call, put_call, get_call, AreMapAnswers, run_storage, storage-AreMapAnswers,
}
use yolo_server.Storage.Database.{Database, IsKept, found, not_found, get_failed, value_of}
use yolo_server.Storage.Memory.{memory-IsDurable, status_of, value_of-status_of}
use yolo_server.Prelude.Assoc.{Assoc, lookup, insert, lookup-insert, text_key}
use mathlib.Core.Bool.{false≢true, true≢false}

-- A memory of which no call on the key "x" succeeds.
abbrev broken : Text → Bool
broken k = text_eq k (codes "x")

abbrev faulty : Database
faulty = record {
  World = Assoc Text Text;
  create_directories = λ path w. w;
  open_db = λ path w. (true, w);
  put = λ k v w. if broken k then (false, w) else (true, insert k v w);
  get = λ k w. (if broken k then get_failed else status_of (lookup k w), w);
}

get_failed≢found : (v : Text) → get_failed ≢ found v
get_failed≢found v e = cc

get_failed≢not_found : get_failed ≢ not_found
get_failed≢not_found e = cc

abbrev faulty-IsKept : IsKept faulty
faulty-IsKept = record {
  contents = λ w k. lookup k w;
  put_done = λ k v w. elim (Bool-cases (broken k)) [
    | inl fails ↦ rw fails (λ ok. absurd (false≢true ok))
    | inr works ↦ rw works (λ ok. memory-IsDurable.put_same k v w ok)
  ];
  put_undone = λ k v w. elim (Bool-cases (broken k)) [
    | inl fails ↦ rw fails (λ no. inl refl)
    | inr works ↦ rw works (λ no. absurd (true≢false no))
  ];
  put_aside = λ k v j w other. elim (Bool-cases (broken k)) [
    | inl fails ↦ rw fails refl
    | inr works ↦
        rw works (lookup-insert k j v w ∙ ap (λ b. if b then some v else lookup j w) other)
  ];
  get_found = λ k v w. elim (Bool-cases (broken k)) [
    | inl fails ↦ rw fails (λ e. absurd (get_failed≢found v e))
    | inr works ↦ rw works (λ e. sym (value_of-status_of (lookup k w)) ∙ ap value_of e)
  ];
  get_not_found = λ k w. elim (Bool-cases (broken k)) [
    | inl fails ↦ rw fails (λ e. absurd (get_failed≢not_found e))
    | inr works ↦ rw works (λ e. sym (value_of-status_of (lookup k w)) ∙ ap value_of e)
  ];
  get_same = λ k j w. refl;
}

abbrev storage : RocksDbStorage
storage = record { is_open = true }

abbrev calls : List Call
calls =
    put_call (codes "b") (codes "v")
    ∷ get_call (codes "b")
    ∷ get_call (codes "a")
    ∷ put_call (codes "x") (codes "w")
    ∷ get_call (codes "x")
    ∷ put_call (codes "b") (codes "w")
    ∷ get_call (codes "b")
    ∷ []

storage-AreMapAnswers_example :
    Ensures
      (λ r. AreMapAnswers faulty (λ j o. faulty-IsKept.contents [] j ≡ o) calls r.0)
      (run_storage faulty storage calls [])
storage-AreMapAnswers_example = storage-AreMapAnswers faulty faulty-IsKept storage calls [] refl
