-- ===== src/Json/Interface.antt =====
-- The calls that the program makes of nlohmann::json, and what is documented of them for the values
-- that the program builds. `none` is an exception.
use yolo_server.Prelude.{ℕ, ℤ, ◌≡◌, ◌<◌, Bool, true, false, Option, none, some, Text, List}
use yolo_server.Prelude.Exec.{Outcome, returns, fault}
use yolo_server.Prelude.Assoc.{lookup, text_key}

pub record Json : Type 1 where
  -- A value, and a float of C++.
  pub Value : Type 0
  pub Float : Type 0
  pub parse : Text → Option Value
  pub dump : Value → Option Text
  pub null : Value
  pub text : Text → Value
  pub int : ℤ → Value
  pub unsigned : ℕ → Value
  pub boolean : Bool → Value
  pub float : Float → Value
  pub array : List Value → Value
  pub object : List (Text × Value) → Value
  -- v.at(key)
  pub at : Value → Text → Option Value
  -- v[key], which gives null for a missing key
  pub index : Value → Text → Option Value
  -- v[key] of a const v, which is undefined for a missing key
  pub index_const : Value → Text → Outcome Value
  pub contains : Value → Text → Bool
  -- for (e : v)
  pub elements : Value → List Value
  pub get_text : Value → Option Text
  pub get_int : Value → Option ℤ
  pub get_unsigned : Value → Option ℕ
  pub get_boolean : Value → Option Bool
  pub get_float : Value → Option Float

abbrev pub null_or {ℓ} : {A : Type ℓ} → A → Option A → A
null_or null none = null
null_or null (some v) = v

abbrev pub is_there {ℓ} : {A : Type ℓ} → Option A → Bool
is_there none = false
is_there (some v) = true

abbrev pub found_or_fault {ℓ} : {A : Type ℓ} → Option A → Outcome A
found_or_fault none = fault
found_or_fault (some v) = returns v

pub record IsFaithful (K : Json) : Type 0 where
  pub at_object :
      (members : List (Text × K.Value)) (key : Text)
      → K.at (K.object members) key ≡ lookup key members
  pub index_object :
      (members : List (Text × K.Value)) (key : Text)
      → K.index (K.object members) key ≡ some (null_or K.null (lookup key members))
  pub index_const_object :
      (members : List (Text × K.Value)) (key : Text)
      → K.index_const (K.object members) key ≡ found_or_fault (lookup key members)
  pub contains_object :
      (members : List (Text × K.Value)) (key : Text)
      → K.contains (K.object members) key ≡ is_there (lookup key members)
  pub elements_array : (vs : List K.Value) → K.elements (K.array vs) ≡ vs
  pub get_text_text : (s : Text) → K.get_text (K.text s) ≡ some s
  pub get_int_int : (i : ℤ) → K.get_int (K.int i) ≡ some i
  pub get_unsigned_unsigned :
      (n : ℕ) → n < 18446744073709551616 → K.get_unsigned (K.unsigned n) ≡ some n
  pub get_boolean_boolean : (b : Bool) → K.get_boolean (K.boolean b) ≡ some b
  pub get_float_float : (x : K.Float) → K.get_float (K.float x) ≡ some x

-- A value that dump prints, so that parse reads the same value again: its texts are UTF-8 and its
-- floats are finite.
abbrev pub IsPrintable : (K : Json) → K.Value → Text → Type 0
IsPrintable K v s = (K.dump v ≡ some s) × (K.parse s ≡ some v)
