-- ===== src/Config/Store.antt =====
-- common/config/Config.cpp: the store, its typed readers and the loader. Each call holds the mutex, so
-- it is one step.
use yolo_server.Prelude.{
  ℕ, zero, suc, ◌+◌, ◌-◌, ◌*◌, ℤ, pos, negsuc, Bool, true, false, ◌&&◌, ◌||◌, Option, none, some,
  Text, List, [], ◌∷◌, leb, ◌==◌, if◌then◌else◌, ◌>>=◌, take, drop, codes, text_eq,
}
use yolo_server.Prelude.Assoc.{Assoc, lookup, insert, text_key}
use yolo_server.Config.Trim.{trim, next}

-- The member data_.
abbrev pub Config : Type 0
Config = Assoc Text Text

-- set
unfoldable pub set : Text → Text → Config → Config
set key value config = insert key value config

abbrev pub or_default {ℓ} : {A : Type ℓ} → A → Option A → A
or_default d none = d
or_default d (some a) = a

-- getString
unfoldable pub get_string : Text → Text → Config → Text
get_string key default_value config = or_default default_value (lookup key config)

-- std::stoi skips white space, reads a sign and digits, and throws if there is no digit or the number
-- is no int; `none` stands for either exception.
abbrev pub is_space : ℕ → Bool
is_space c = c == 32 || (leb 9 c && leb c 13)

abbrev pub is_digit : ℕ → Bool
is_digit c = leb 48 c && leb c 57

abbrev pub skip_space : Text → Text
skip_space [] = []
skip_space (c ∷ cs) = let rest = skip_space cs in if is_space c then rest else c ∷ cs

-- The number that the digits in front stand for, after those that made `n`.
abbrev pub read_digits : ℕ → Text → ℕ
read_digits n [] = n
read_digits n (c ∷ cs) =
    let rest = read_digits (n * 10 + (c - 48)) cs in if is_digit c then rest else n

abbrev pub starts_with_digit : Text → Bool
starts_with_digit [] = false
starts_with_digit (c ∷ cs) = is_digit c

abbrev pub read_number : Text → Option ℕ
read_number s = if starts_with_digit s then some (read_digits 0 s) else none

abbrev pub as_int : ℕ → Option ℤ
as_int n = if leb n 2147483647 then some (pos n) else none

abbrev pub minus : ℕ → ℤ
minus zero = pos 0
minus (suc n) = negsuc n

abbrev pub as_negative_int : ℕ → Option ℤ
as_negative_int n = if leb n 2147483648 then some (minus n) else none

unfoldable pub read_signed : Text → Option ℤ
read_signed [] = none
read_signed (c ∷ cs) =
    if c == 45
    then read_number cs >>= as_negative_int
    else if c == 43
    then read_number cs >>= as_int
    else read_number (c ∷ cs) >>= as_int

unfoldable pub stoi : Text → Option ℤ
stoi s = read_signed (skip_space s)

-- getInt
unfoldable pub get_int : Text → ℤ → Config → ℤ
get_int key default_value config = or_default default_value (lookup key config >>= stoi)

-- std::tolower in the "C" locale.
abbrev pub tolower : ℕ → ℕ
tolower c = if leb 65 c && leb c 90 then c + 32 else c

abbrev pub lower : Text → Text
lower [] = []
lower (c ∷ cs) = tolower c ∷ lower cs

unfoldable pub one_of : List Text → Text → Bool
one_of [] v = false
one_of (w ∷ ws) v = text_eq v w || one_of ws v

abbrev pub true_words : List Text
true_words = codes "1" ∷ codes "true" ∷ codes "yes" ∷ codes "on" ∷ []

abbrev pub false_words : List Text
false_words = codes "0" ∷ codes "false" ∷ codes "no" ∷ codes "off" ∷ []

abbrev pub as_bool : Text → Option Bool
as_bool v =
    if one_of true_words v then some true else if one_of false_words v then some false else none

-- getBool
unfoldable pub get_bool : Text → Bool → Config → Bool
get_bool key default_value config =
    or_default default_value (lookup key config >>= λ v. as_bool (lower v))

-- find(c)
unfoldable pub find : ℕ → Text → Option ℕ
find c [] = none
find c (d ∷ cs) = let rest = find c cs in if d == c then some 0 else next rest

abbrev pub is_comment : Text → Bool
is_comment [] = true
is_comment (c ∷ cs) = c == 35

abbrev pub is_empty : Text → Bool
is_empty [] = true
is_empty (c ∷ cs) = false

-- A line with '=' at position `at`.
unfoldable pub assign : Text → ℕ → Config → Config
assign line at config =
    let key = trim (take at line) in
    if is_empty key then config else set key (trim (drop (at + 1) line)) config

abbrev pub assign_at : Text → Option ℕ → Config → Config
assign_at line none config = config
assign_at line (some at) config = assign line at config

-- One round of the loop of loadFromFile.
unfoldable pub load_line : Text → Config → Config
load_line raw config =
    let line = trim raw in if is_comment line then config else assign_at line (find 61 line) config

unfoldable pub load_lines : List Text → Config → Config
load_lines [] config = config
load_lines (l ∷ ls) config = load_lines ls (load_line l config)

-- The lines that std::getline reads; the characters after the last end of line are a line if there
-- are any.
abbrev pub push : ℕ → List Text → List Text
push c [] = (c ∷ []) ∷ []
push c (l ∷ ls) = (c ∷ l) ∷ ls

unfoldable pub lines : Text → List Text
lines [] = []
lines (c ∷ cs) = let rest = lines cs in if c == 10 then [] ∷ rest else push c rest

-- loadFromFile, on the contents of the file; `none` is a file that does not open.
unfoldable pub load_from_file : Option Text → Config → Bool × Config
load_from_file none config = (false, config)
load_from_file (some contents) config = (true, load_lines (lines contents) config)
