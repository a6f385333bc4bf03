-- ===== src/Codec/Tests.antt =====
-- A frame with one box, and its text.
use yolo_server.Prelude.{arith, ◌≤◌, length, pos, refl, Text, [], ◌∷◌, codes, text_eq}
use yolo_server.Prelude.Assoc.{Assoc, lookup, text_key}
use yolo_server.Json.Interface.{IsPrintable}
use yolo_server.Json.Toy.{Tree, toy, write, write_trees, write_members}
use yolo_server.Codec.Frame.{YoloFrame, frame_value}

abbrev pub cat : (table : Assoc Text Tree) → YoloFrame (toy table)
cat table = record {
  image_id = codes "img";
  image_hash = codes "h";
  boxes = record { class_id = pos 15; x = 1; y = 2; w = 3; h = 4; confidence = 9 } ∷ [];
  width = pos 640;
  height = pos 480;
}

abbrev pub cat_text : Text
unfolding frame_value write write_trees write_members
cat_text = write (frame_value (toy []) (cat []))

abbrev pub table : Assoc Text Tree
unfolding frame_value
table = (cat_text, frame_value (toy []) (cat [])) ∷ []

pub cat-IsPrintable : IsPrintable (toy table) (frame_value (toy table) (cat table)) cat_text
unfolding table cat_text frame_value write write_trees write_members lookup text_eq
cat-IsPrintable = (refl, refl)

pub cat_text-short : length cat_text ≤ 1000
unfolding cat_text frame_value write write_trees write_members
cat_text-short = omega arith
