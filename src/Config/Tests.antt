-- ===== src/Config/Tests.antt =====
-- A configuration file, and runs of common/config/Config.cpp on it.
use yolo_server.Prelude.{
  ◌≡◌, refl, pos, negsuc, true, false, none, some, Text, List, [], ◌∷◌, ◌++◌, codes, text_eq,
}
use yolo_server.Prelude.Assoc.{lookup, insert, erase, text_key}
use yolo_server.Config.Trim.{trim, find_first_not_blank, find_last_not_blank}
use yolo_server.Config.Store.{
  Config, set, get_int, get_bool, stoi, read_signed, one_of, find, assign, load_line, load_lines,
  lines, load_from_file,
}
use yolo_server.Config.Reading.{Setting}

abbrev pub setting : Text → Text → Setting
setting key value = record {
  key = key;
  value = value;
  before = [];
  before_equals = codes " ";
  after_equals = codes " ";
  after = 13 ∷ [];
}

abbrev pub settings : List Setting
settings =
    setting (codes "port") (codes "8080")
    ∷ setting (codes "id") (codes "node1")
    ∷ setting (codes "port") (codes "9090")
    ∷ []

abbrev pub file : Text
file = codes "# server" ++ 10 ∷ codes "port = 8080" ++ 10 ∷ codes "broken" ++ 10 ∷ codes "id=node1 "

abbrev loaded : Config
loaded = (codes "id", codes "node1") ∷ (codes "port", codes "8080") ∷ []

loads : load_from_file (some file) [] ≡ (true, loaded)
unfolding load_from_file load_lines lines load_line trim find_first_not_blank find_last_not_blank
    find assign set insert erase text_eq
loads = refl

port : get_int (codes "port") (pos 9000) loaded ≡ pos 8080
unfolding get_int lookup text_eq stoi read_signed
port = refl

no_number : get_int (codes "id") (pos 9000) loaded ≡ pos 9000
unfolding get_int lookup text_eq stoi read_signed
no_number = refl

reads : (stoi (codes " -12x") ≡ some (negsuc 11)) × (stoi (codes "2147483648") ≡ none)
unfolding stoi read_signed
reads = (refl, refl)

flag : get_bool (codes "k") false ((codes "k", codes "YES") ∷ []) ≡ true
unfolding get_bool lookup text_eq one_of
flag = refl
