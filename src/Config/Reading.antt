-- ===== src/Config/Reading.antt =====
-- The loader of common/config/Config.cpp, on the lines of a file.
use mathlib.Core.Bool.{false≢true}
use yolo_server.Prelude.{
  ℕ, suc, ◌+◌, ◌≡◌, refl, sym, ap, ◌∙◌, true, false, some, Text, List, [], ◌∷◌, ◌++◌, ◌==◌, ==_iff,
  arith, length, drop, All, All-append, take_all, append-nil, append_assoc,
}
use yolo_server.Config.Trim.{trim}
use yolo_server.Config.Store.{
  Config, set, find, assign, assign_at, load_line, load_lines, lines, load_from_file, is_comment,
  is_empty,
}
use yolo_server.Config.Trimming.{IsBlank, StartsClean, EndsClean, trim_lem}

-- The character does not occur in the text.
abbrev pub Lacks : ℕ → Text → Type 0
Lacks c s = All (λ (d : ℕ). (d == c) ≡ false) s

find_first : (c : ℕ) (s t : Text) → Lacks c s → find c (s ++ (c ∷ t)) ≡ some (length s)
unfolding find
find_first c [] t h = rw ((==_iff c c).1 refl) refl
find_first c (d ∷ s) t h = rw (h.0, find_first c s t h.1) refl

EndsClean-append : (s t : Text) → is_empty t ≡ false → EndsClean t → EndsClean (s ++ t)
EndsClean-append [] t used h = h
EndsClean-append (d ∷ []) [] used h = absurd (false≢true (sym used))
EndsClean-append (d ∷ []) (c ∷ t) used h = h
EndsClean-append (d ∷ e ∷ s) t used h = EndsClean-append (e ∷ s) t used h

used_behind : (s : Text) (c : ℕ) (t : Text) → is_empty (s ++ (c ∷ t)) ≡ false
used_behind [] c t = refl
used_behind (d ∷ s) c t = refl

-- What the first character decides.
StartsClean-append : (s t : Text) → is_comment s ≡ false → StartsClean s → StartsClean (s ++ t)
StartsClean-append [] t used h = absurd (false≢true (sym used))
StartsClean-append (c ∷ s) t used h = h

is_comment-append : (s t : Text) → is_comment s ≡ false → is_comment (s ++ t) ≡ false
is_comment-append [] t used = absurd (false≢true (sym used))
is_comment-append (c ∷ s) t used = used

not_comment : (s : Text) → is_comment s ≡ false → is_empty s ≡ false
not_comment [] used = absurd (false≢true (sym used))
not_comment (c ∷ s) used = refl

drop_behind : (s : Text) (c : ℕ) (t : Text) → drop (length s + 1) (s ++ (c ∷ t)) ≡ t
drop_behind s c t = ap (λ n. drop n (s ++ (c ∷ t))) (suc_form s) ∙ dropped s
  where
    suc_form : (s : Text) → length s + 1 ≡ suc (length s)
    suc_form s = omega arith

    dropped : (s : Text) → drop (suc (length s)) (s ++ (c ∷ t)) ≡ t
    dropped [] = refl
    dropped (d ∷ s) = dropped s

-- A setting as a line of a file: blanks, the key, blanks, '=', blanks, the value, blanks.
pub record Setting : Type 0 where
  pub key : Text
  pub value : Text
  pub before : Text
  pub before_equals : Text
  pub after_equals : Text
  pub after : Text

abbrev pub middle : Setting → Text
middle s = s.key ++ (s.before_equals ++ (61 ∷ (s.after_equals ++ s.value)))

abbrev pub line_of : Setting → Text
line_of s = s.before ++ (middle s ++ s.after)

-- Key and value start and end with no blank, neither is empty, the key starts with no '#' and has no '=',
-- and no part has an end of line.
pub record IsPlain (s : Setting) : Type 0 where
  pub key_starts : StartsClean s.key
  pub key_ends : EndsClean s.key
  pub key_used : is_comment s.key ≡ false
  pub key_equals : Lacks 61 s.key
  pub value_used : is_empty s.value ≡ false
  pub value_starts : StartsClean s.value
  pub value_ends : EndsClean s.value
  pub blanks : IsBlank s.before × IsBlank s.before_equals × IsBlank s.after_equals × IsBlank s.after
  pub one_line : Lacks 10 (line_of s)

-- The blanks are not '='.
blank-Lacks : (s : Text) → IsBlank s → Lacks 61 s
blank-Lacks [] h = tt
blank-Lacks (c ∷ s) h = (ground (arith, h.0), blank-Lacks s h.1)

module _ (s : Setting) (plain : IsPlain s) where
  left : Text
  left = s.key ++ s.before_equals

  right : Text
  right = s.after_equals ++ s.value

  middle-split : middle s ≡ left ++ (61 ∷ right)
  unfolding left right
  middle-split = sym (append_assoc s.key s.before_equals (61 ∷ (s.after_equals ++ s.value)))

  trim-left : trim left ≡ s.key
  unfolding left
  trim-left = trim_lem [] s.key s.before_equals tt plain.blanks.1 plain.key_starts plain.key_ends

  trim-right : trim right ≡ s.value
  unfolding right
  trim-right =
      ap (λ v. trim (s.after_equals ++ v)) (sym (append-nil s.value))
      ∙ trim_lem s.after_equals s.value [] plain.blanks.2 tt plain.value_starts plain.value_ends

  assign_lem :
      (config : Config)
      → assign (left ++ (61 ∷ right)) (length left) config ≡ set s.key s.value config
  unfolding assign
  assign_lem config =
      rw
        (
          take_all left (61 ∷ right),
          drop_behind left 61 right,
          trim-left,
          trim-right,
          not_comment s.key plain.key_used,
        )
        refl

  find-equals : find 61 (left ++ (61 ∷ right)) ≡ some (length left)
  unfolding left
  find-equals = find_first 61 left right (
      All-append _ s.key s.before_equals plain.key_equals
        (blank-Lacks s.before_equals plain.blanks.1))

  trim-line : trim (line_of s) ≡ middle s
  trim-line =
      trim_lem s.before (middle s) s.after plain.blanks.0 plain.blanks.3
        (StartsClean-append s.key _ plain.key_used plain.key_starts)
        (EndsClean-append s.key _ (used_behind s.before_equals 61 _) (
          EndsClean-append s.before_equals _ refl
            (EndsClean-append (61 ∷ s.after_equals) s.value plain.value_used plain.value_ends)))

  pub load_line_lem : (config : Config) → load_line (line_of s) config ≡ set s.key s.value config
  unfolding load_line
  load_line_lem config =
      rw
        (
          trim-line,
          is_comment-append s.key (s.before_equals ++ (61 ∷ (s.after_equals ++ s.value)))
              plain.key_used,
        )
        (rw (middle-split)
          (ap (λ at. assign_at (left ++ (61 ∷ right)) at config) find-equals ∙ assign_lem config))

-- The contents of a file of settings, one to a line.
unfoldable pub render : List Setting → Text
render [] = []
render (s ∷ ss) = line_of s ++ (10 ∷ render ss)

abbrev pub set_all : List Setting → Config → Config
set_all [] config = config
set_all (s ∷ ss) config = set_all ss (set s.key s.value config)

lines_lem : (l t : Text) → Lacks 10 l → lines (l ++ (10 ∷ t)) ≡ l ∷ lines t
unfolding lines
lines_lem [] t h = refl
lines_lem (c ∷ l) t h = rw (h.0, lines_lem l t h.1) refl

load_lines_lem :
    (ss : List Setting) (config : Config)
    → All IsPlain ss
    → load_lines (lines (render ss)) config ≡ set_all ss config
unfolding render lines load_lines
load_lines_lem [] config plain = refl
load_lines_lem (s ∷ ss) config plain =
    ap (λ ls. load_lines ls config) (lines_lem (line_of s) (render ss) plain.0.one_line)
    ∙ load_lines_lem ss (load_line (line_of s) config) plain.1
    ∙ ap (set_all ss) (load_line_lem s plain.0 config)

-- LoadFromFile on a file of settings, one to a line, with any blanks around keys and values,
-- returns true and has set the keys to the values, in the order of the file; keys and values start
-- and end with no blank, neither is empty, a key has no '=' and starts with no '#'.
pub load_from_file-render :
    (ss : List Setting) (config : Config)
    → All IsPlain ss
    → load_from_file (some (render ss)) config ≡ (true, set_all ss config)
unfolding load_from_file
load_from_file-render ss config plain = ap (λ c. (true, c)) (load_lines_lem ss config plain)
