-- ===== src/Codec/RoundTrip.antt =====
-- encode and decode of common/codec/YoloCodec.cpp, one after the other.
use yolo_server.Prelude.{◌≡◌, refl, some, Text, List, [], ◌∷◌, text_eq}
use yolo_server.Prelude.Assoc.{lookup, text_key}
use yolo_server.Json.Interface.{Json, IsFaithful, IsPrintable}
use yolo_server.Codec.Frame.{
  YoloBox, YoloFrame, box_members, box_values, frame_value, encode, decode, read_box, read_boxes,
  read_frame,
}

module _ (K : Json) (F : IsFaithful K) where
  read_box-object : (b : YoloBox K) → read_box K (K.object (box_members K b)) ≡ some b
  unfolding read_box lookup text_eq
  read_box-object b = simp (F.at_object, F.get_int_int, F.get_float_float)

  read_boxes-values : (bs : List (YoloBox K)) → read_boxes K (box_values K bs) ≡ some bs
  unfolding read_boxes
  read_boxes-values [] = refl
  read_boxes-values (b ∷ bs) = simp (read_box-object b, read_boxes-values bs)

  pub read_frame-value : (f : YoloFrame K) → read_frame K (frame_value K f) ≡ some f
  unfolding read_frame frame_value lookup text_eq
  read_frame-value f =
      simp (F.at_object, F.get_text_text, F.get_int_int, F.elements_array, read_boxes-values)

  -- If the frame's value prints as a text that parses to it, encode gives a text that decode turns
  -- into the same frame.
  pub decode-encode :
      (f : YoloFrame K) (s : Text)
      → IsPrintable K (frame_value K f) s
      → (encode K f ≡ some s) × (decode K s ≡ some f)
  unfolding encode decode
  decode-encode f s (printed, parsed) = (printed, rw parsed (read_frame-value f))
