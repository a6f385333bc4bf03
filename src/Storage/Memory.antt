-- ===== src/Storage/Memory.antt =====
-- A map in memory as a database.
use mathlib.Core.Bool.{false≢true}
use yolo_server.Prelude.{
  ◌≡◌, ◌≢◌, refl, ap, ◌∙◌, sym, true, false, Option, none, some, Text, text_eq, text_eq_iff,
  text_eq_refl, if◌then◌else◌, Bool-cases, inl, inr,
}
use yolo_server.Prelude.Assoc.{Assoc, lookup, insert, lookup-insert, text_key}
use yolo_server.Storage.Database.{Database, IsDurable, GetStatus, found, not_found, value_of}

abbrev pub status_of : Option Text → GetStatus
status_of none = not_found
status_of (some v) = found v

abbrev pub memory : Database
memory = record {
  World = Assoc Text Text;
  create_directories = λ path w. w;
  open_db = λ path w. (true, w);
  put = λ k v w. (true, insert k v w);
  get = λ k w. (status_of (lookup k w), w);
}

pub value_of-status_of : (o : Option Text) → value_of (status_of o) ≡ o
value_of-status_of none = refl
value_of-status_of (some v) = refl

pub differs : (k j : Text) → j ≢ k → text_eq k j ≡ false
differs k j apart = elim (Bool-cases (text_eq k j)) [
  | inl same ↦ absurd (apart (sym ((text_eq_iff k j).0 same)))
  | inr other ↦ other
]

abbrev pub memory-IsDurable : IsDurable memory
memory-IsDurable = record {
  stored = λ w k. lookup k w;
  put_same = λ k v w ok.
      lookup-insert k k v w ∙ ap (λ b. if b then some v else lookup k w) (text_eq_refl k);
  put_other = λ k v j w apart.
      lookup-insert k j v w ∙ ap (λ b. if b then some v else lookup j w) (differs k j apart);
  put_failed = λ k v w h. absurd (false≢true (sym h));
  get_value = λ k w. value_of-status_of (lookup k w);
  get_keeps = λ k j w. refl;
}
