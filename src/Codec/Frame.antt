-- ===== src/Codec/Frame.antt =====
-- storage/YoloTypes.h, and encode and decode of common/codec/YoloCodec.cpp.
use yolo_server.Prelude.{ℤ, Option, some, ◌>>=◌, Text, List, [], ◌∷◌, codes}
use yolo_server.Json.Interface.{Json}

module _ (K : Json) where
  open K use {
    Value, Float, parse, dump, text, int, float, array, object, at, elements, get_text, get_int,
    get_float,
  }

  pub record YoloBox : Type 0 where
    pub class_id : ℤ
    pub x : Float
    pub y : Float
    pub w : Float
    pub h : Float
    pub confidence : Float

  pub record YoloFrame : Type 0 where
    pub image_id : Text
    pub image_hash : Text
    pub boxes : List YoloBox
    pub width : ℤ
    pub height : ℤ

  -- The object of one box.
  abbrev pub box_members : YoloBox → List (Text × Value)
  box_members b =
      (codes "class_id", int b.class_id)
      ∷ (codes "x", float b.x)
      ∷ (codes "y", float b.y)
      ∷ (codes "w", float b.w)
      ∷ (codes "h", float b.h)
      ∷ (codes "confidence", float b.confidence)
      ∷ []

  abbrev pub box_values : List YoloBox → List Value
  box_values [] = []
  box_values (b ∷ bs) = object (box_members b) ∷ box_values bs

  abbrev pub frame_members : YoloFrame → List (Text × Value)
  frame_members f =
      (codes "image_id", text f.image_id)
      ∷ (codes "width", int f.width)
      ∷ (codes "height", int f.height)
      ∷ (codes "image_hash", text f.image_hash)
      ∷ (codes "boxes", array (box_values f.boxes))
      ∷ []

  unfoldable pub frame_value : YoloFrame → Value
  frame_value f = object (frame_members f)

  -- encode
  unfoldable pub encode : YoloFrame → Option Text
  encode f = dump (frame_value f)

  abbrev pub text_at : Value → Text → Option Text
  text_at v key = at v key >>= get_text

  abbrev pub int_at : Value → Text → Option ℤ
  int_at v key = at v key >>= get_int

  abbrev pub float_at : Value → Text → Option Float
  float_at v key = at v key >>= get_float

  unfoldable pub read_box : Value → Option YoloBox
  read_box v = do
    class_id ← int_at v (codes "class_id")
    x ← float_at v (codes "x")
    y ← float_at v (codes "y")
    w ← float_at v (codes "w")
    h ← float_at v (codes "h")
    confidence ← float_at v (codes "confidence")
    some (record { class_id = class_id; x = x; y = y; w = w; h = h; confidence = confidence })

  unfoldable pub read_boxes : List Value → Option (List YoloBox)
  read_boxes [] = some []
  read_boxes (v ∷ vs) = do box ← read_box v; boxes ← read_boxes vs; some (box ∷ boxes)

  unfoldable pub read_frame : Value → Option YoloFrame
  read_frame v = do
    image_id ← text_at v (codes "image_id")
    width ← int_at v (codes "width")
    height ← int_at v (codes "height")
    image_hash ← text_at v (codes "image_hash")
    list ← at v (codes "boxes")
    boxes ← read_boxes (elements list)
    some (record {
      image_id = image_id;
      image_hash = image_hash;
      boxes = boxes;
      width = width;
      height = height;
    })

  -- decode
  unfoldable pub decode : Text → Option YoloFrame
  decode s = parse s >>= read_frame
