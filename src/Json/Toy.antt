-- ===== src/Json/Toy.antt =====
-- Values as trees, for runs and instances: dump writes the tree out, and parse reads what a table
-- lists.
use yolo_server.Prelude.{
  ap, ℕ, ℤ, pos, negsuc, ◌≡◌, refl, Bool, true, false, Option, none, some, Text, List, [], ◌∷◌,
  ◌++◌,
}
use yolo_server.Prelude.Assoc.{Assoc, lookup, text_key}
use yolo_server.Prelude.Exec.{Outcome, throws}
use yolo_server.Json.Interface.{Json, IsFaithful, null_or, found_or_fault, is_there}

mutual
  pub data Tree : Type 0 where
    null : Tree
    boolean : Bool → Tree
    number : ℤ → Tree
    float : ℕ → Tree
    text : Text → Tree
    array : Trees → Tree
    object : Members → Tree

  pub data Trees : Type 0 where
    nil : Trees
    cons : Tree → Trees → Trees

  pub data Members : Type 0 where
    end : Members
    member : Text → Tree → Members → Members

unfoldable mutual
  -- The tree in prefix form.
  pub write : Tree → Text
  write null = 0 ∷ []
  write (boolean true) = 1 ∷ []
  write (boolean false) = 2 ∷ []
  write (number (pos n)) = 3 ∷ n ∷ []
  write (number (negsuc n)) = 4 ∷ n ∷ []
  write (float x) = 5 ∷ x ∷ []
  write (text s) = 6 ∷ (s ++ (7 ∷ []))
  write (array vs) = 8 ∷ (write_trees vs ++ (9 ∷ []))
  write (object ms) = 10 ∷ (write_members ms ++ (11 ∷ []))

  pub write_trees : Trees → Text
  write_trees nil = []
  write_trees (cons v vs) = write v ++ write_trees vs

  pub write_members : Members → Text
  write_members end = []
  write_members (member k v ms) = k ++ (12 ∷ (write v ++ write_members ms))

abbrev pub of_list : List Tree → Trees
of_list [] = nil
of_list (v ∷ vs) = cons v (of_list vs)

abbrev pub to_list : Trees → List Tree
to_list nil = []
to_list (cons v vs) = v ∷ to_list vs

abbrev pub of_members : List (Text × Tree) → Members
of_members [] = end
of_members ((k, v) ∷ ms) = member k v (of_members ms)

abbrev pub to_members : Members → List (Text × Tree)
to_members end = []
to_members (member k v ms) = (k, v) ∷ to_members ms

abbrev pub members_of : Tree → Option (List (Text × Tree))
members_of (object ms) = some (to_members ms)
members_of _ = none

abbrev pub find_member : Text → Option (List (Text × Tree)) → Option Tree
find_member k none = none
find_member k (some ms) = lookup k ms

abbrev pub index_in : Text → Option (List (Text × Tree)) → Option Tree
index_in k none = none
index_in k (some ms) = some (null_or null (lookup k ms))

abbrev pub const_in : Text → Option (List (Text × Tree)) → Outcome Tree
const_in k none = throws
const_in k (some ms) = found_or_fault (lookup k ms)

abbrev pub elements_of : Tree → List Tree
elements_of (array vs) = to_list vs
elements_of _ = []

abbrev pub text_of : Tree → Option Text
text_of (text s) = some s
text_of _ = none

abbrev pub number_of : Tree → Option ℤ
number_of (number i) = some i
number_of _ = none

abbrev pub size_of : Tree → Option ℕ
size_of (number (pos n)) = some n
size_of _ = none

abbrev pub boolean_of : Tree → Option Bool
boolean_of (boolean b) = some b
boolean_of _ = none

abbrev pub float_of : Tree → Option ℕ
float_of (float x) = some x
float_of _ = none

abbrev pub toy : Assoc Text Tree → Json
toy table = record {
  Value = Tree;
  Float = ℕ;
  parse = λ s. lookup s table;
  dump = λ v. some (write v);
  null = null;
  text = text;
  int = number;
  unsigned = λ n. number (pos n);
  boolean = boolean;
  float = float;
  array = λ vs. array (of_list vs);
  object = λ ms. object (of_members ms);
  at = λ v k. find_member k (members_of v);
  index = λ v k. index_in k (members_of v);
  index_const = λ v k. const_in k (members_of v);
  contains = λ v k. is_there (find_member k (members_of v));
  elements = elements_of;
  get_text = text_of;
  get_int = number_of;
  get_unsigned = size_of;
  get_boolean = boolean_of;
  get_float = float_of;
}

to_list-of_list : (vs : List Tree) → to_list (of_list vs) ≡ vs
to_list-of_list [] = refl
to_list-of_list (v ∷ vs) = ap (◌∷◌ v) (to_list-of_list vs)

to_members-of_members : (ms : List (Text × Tree)) → to_members (of_members ms) ≡ ms
to_members-of_members [] = refl
to_members-of_members ((k, v) ∷ ms) = ap (◌∷◌ (k, v)) (to_members-of_members ms)

pub toy-IsFaithful : (table : Assoc Text Tree) → IsFaithful (toy table)
toy-IsFaithful table = record {
  at_object = λ ms k. ap (lookup k) (to_members-of_members ms);
  index_object = λ ms k. ap (λ xs. some (null_or null (lookup k xs))) (to_members-of_members ms);
  index_const_object = λ ms k. ap (λ xs. found_or_fault (lookup k xs)) (to_members-of_members ms);
  contains_object = λ ms k. ap (λ xs. is_there (lookup k xs)) (to_members-of_members ms);
  elements_array = to_list-of_list;
  get_text_text = λ s. refl;
  get_int_int = λ i. refl;
  get_unsigned_unsigned = λ n h. refl;
  get_boolean_boolean = λ b. refl;
  get_float_float = λ x. refl;
}
