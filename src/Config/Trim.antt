-- ===== src/Config/Trim.antt =====
-- trim of common/config/Config.cpp, and the searches in a std::string that it is made of.
use yolo_server.Prelude.{
  ℕ, suc, ◌+◌, ◌-◌, Bool, true, false, ◌||◌, Option, none, some, Text, [], ◌∷◌, ◌==◌, if◌then◌else◌,
  take, drop,
}

-- A character of " \t\r\n".
abbrev pub is_blank : ℕ → Bool
is_blank c = c == 32 || c == 9 || c == 13 || c == 10

abbrev pub next : Option ℕ → Option ℕ
next none = none
next (some i) = some (suc i)

-- find_first_not_of(" \t\r\n")
unfoldable pub find_first_not_blank : Text → Option ℕ
find_first_not_blank [] = none
find_first_not_blank (c ∷ cs) =
    let rest = find_first_not_blank cs in if is_blank c then next rest else some 0

abbrev pub or_here : Bool → Option ℕ → Option ℕ
or_here blank (some i) = some (suc i)
or_here true none = none
or_here false none = some 0

-- find_last_not_of(" \t\r\n")
unfoldable pub find_last_not_blank : Text → Option ℕ
find_last_not_blank [] = none
find_last_not_blank (c ∷ cs) = or_here (is_blank c) (find_last_not_blank cs)

-- substr(start, count)
abbrev pub substr : Text → ℕ → ℕ → Text
substr s start count = take count (drop start s)

-- trim. A start without an end does not occur; then the count would be that of npos, all the rest.
abbrev pub cut : Text → ℕ → Option ℕ → Text
cut s start none = drop start s
cut s start (some last) = substr s start (last - start + 1)

abbrev pub cut_from : Text → Option ℕ → Text
cut_from s none = []
cut_from s (some start) = cut s start (find_last_not_blank s)

unfoldable pub trim : Text → Text
trim s = cut_from s (find_first_not_blank s)
