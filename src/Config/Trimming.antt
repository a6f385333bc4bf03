-- ===== src/Config/Trimming.antt =====
-- trim of common/config/Config.cpp.
use yolo_server.Prelude.{
  ℕ, ◌+◌, ◌-◌, ◌≡◌, refl, ap, ◌∙◌, true, false, none, some, Text, [], ◌∷◌, ◌++◌, arith, length,
  take, All, All-append, take_all, drop_all,
}
use yolo_server.Config.Trim.{
  is_blank, find_first_not_blank, find_last_not_blank, cut, cut_from, trim,
}

abbrev pub IsBlank : Text → Type 0
IsBlank s = All (λ (c : ℕ). is_blank c ≡ true) s

-- A text that starts with no blank.
abbrev pub StartsClean : Text → Type 0
StartsClean [] = Unit
StartsClean (c ∷ cs) = is_blank c ≡ false

-- A text that ends with no blank.
abbrev pub EndsClean : Text → Type 0
EndsClean [] = Unit
EndsClean (c ∷ []) = is_blank c ≡ false
EndsClean (c ∷ d ∷ cs) = EndsClean (d ∷ cs)

find_first_blank : (s : Text) → IsBlank s → find_first_not_blank s ≡ none
unfolding find_first_not_blank
find_first_blank [] h = refl
find_first_blank (c ∷ cs) h = rw (h.0, find_first_blank cs h.1) refl

find_first_clean :
    (a : Text) (c : ℕ) (s : Text)
    → IsBlank a
    → is_blank c ≡ false
    → find_first_not_blank (a ++ c ∷ s) ≡ some (length a)
unfolding find_first_not_blank
find_first_clean [] c s h clean = rw clean refl
find_first_clean (b ∷ a) c s h clean = rw (h.0, find_first_clean a c s h.1 clean) refl

find_last_blank : (s : Text) → IsBlank s → find_last_not_blank s ≡ none
unfolding find_last_not_blank
find_last_blank [] h = refl
find_last_blank (c ∷ cs) h = rw (h.0, find_last_blank cs h.1) refl

find_last_clean :
    (c : ℕ) (t b : Text)
    → EndsClean (c ∷ t)
    → IsBlank b
    → find_last_not_blank (c ∷ (t ++ b)) ≡ some (length t)
unfolding find_last_not_blank
find_last_clean c [] b clean h = rw (clean, find_last_blank b h) refl
find_last_clean c (d ∷ t) b clean h = rw (find_last_clean d t b clean h) refl

find_last_behind :
    (a s : Text) (i : ℕ)
    → find_last_not_blank s ≡ some i
    → find_last_not_blank (a ++ s) ≡ some (length a + i)
unfolding find_last_not_blank
find_last_behind [] s i e = e ∙ ap some (omega arith)
find_last_behind (b ∷ a) s i e = rw (find_last_behind a s i e) (ap some (omega arith))

-- Trim of a text that starts and ends with no blank, between blanks, is that text.
pub trim_lem :
    (a t b : Text) → IsBlank a → IsBlank b → StartsClean t → EndsClean t → trim (a ++ (t ++ b)) ≡ t
unfolding trim
trim_lem a [] b ha hb starts ends =
    ap (cut_from (a ++ b)) (find_first_blank (a ++ b) (All-append _ a b ha hb))
trim_lem a (c ∷ t) b ha hb starts ends =
    ap (cut_from s) (find_first_clean a c (t ++ b) ha starts)
    ∙ ap (cut s (length a))
        (find_last_behind a (c ∷ (t ++ b)) (length t) (find_last_clean c t b ends hb))
    ∙ ap (take (length a + length t - length a + 1)) (drop_all a (c ∷ (t ++ b)))
    ∙ ap (λ n. take n (c ∷ (t ++ b))) count
    ∙ take_all (c ∷ t) b
  where
    s : Text
    s = a ++ c ∷ (t ++ b)

    count : length a + length t - length a + 1 ≡ length (c ∷ t)
    count = omega arith
