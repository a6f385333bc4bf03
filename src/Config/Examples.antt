-- ===== src/Config/Examples.antt =====
-- The theorems on common/config/Config.cpp at concrete files.
use yolo_server.Prelude.{◌≡◌, refl, pos, negsuc, true, some, [], ◌∷◌, codes}
use yolo_server.Config.Store.{load_from_file, get_int, set}
use yolo_server.Config.Reading.{IsPlain, render, set_all, load_from_file-render}
use yolo_server.Config.Numbers.{get_int-set}
use yolo_server.Server.Startup.{to_string}
use yolo_server.Config.Tests.{setting}

port-IsPlain : IsPlain (setting (codes "port") (codes "8080"))
port-IsPlain = record {
  key_starts = refl;
  key_ends = refl;
  key_used = refl;
  key_equals = (refl, (refl, (refl, (refl, tt))));
  value_used = refl;
  value_starts = refl;
  value_ends = refl;
  blanks = (tt, (refl, tt), (refl, tt), (refl, tt));
  one_line = (
    refl,
    (refl, (refl, (refl, (refl, (refl, (refl, (refl, (refl, (refl, (refl, (refl, tt))))))))))),
  );
}

load_from_file-render_example :
    load_from_file (some (render (setting (codes "port") (codes "8080") ∷ []))) []
    ≡ (true, set_all (setting (codes "port") (codes "8080") ∷ []) [])
load_from_file-render_example =
    load_from_file-render (setting (codes "port") (codes "8080") ∷ []) [] (port-IsPlain, tt)

get_int-set_example :
    (get_int (codes "port") (pos 9000) (set (codes "port") (to_string 8080) []) ≡ pos 8080)
    × (get_int (codes "port") (pos 9000) (set (codes "port") (45 ∷ to_string 8080) [])
        ≡ negsuc 8079)
get_int-set_example = get_int-set (codes "port") (pos 9000) 8080 []
