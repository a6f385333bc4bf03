-- ===== src/Connection/Tokens.antt =====
-- The words that `>>` reads from an istringstream, in server/Connection.cpp.
use yolo_server.Prelude.{ℕ, Bool, ◌&&◌, ◌||◌, Text, [], ◌∷◌, leb, ◌==◌, if◌then◌else◌}

-- isspace
abbrev pub is_space : ℕ → Bool
is_space c = c == 32 || (leb 9 c && leb c 13)

unfoldable pub skip_spaces : Text → Text
skip_spaces [] = []
skip_spaces (c ∷ s) = let rest = skip_spaces s in if is_space c then rest else c ∷ s

-- The word in front, and what is behind it.
unfoldable pub span_word : Text → Text × Text
span_word [] = ([], [])
span_word (c ∷ s) =
    let (word, rest) = span_word s in if is_space c then ([], c ∷ s) else (c ∷ word, rest)

-- iss >> token
unfoldable pub read_word : Text → Text × Text
read_word s = span_word (skip_spaces s)

-- getFirstToken
unfoldable pub get_first_token : Text → Text
get_first_token s = (read_word s).0

-- image_id of handleGet
unfoldable pub second_token : Text → Text
second_token s = (read_word (read_word s).1).0
