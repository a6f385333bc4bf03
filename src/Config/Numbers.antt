-- ===== src/Config/Numbers.antt =====
-- getInt of common/config/Config.cpp, on a number in decimal.
use yolo_server.Prelude.{
  ℕ, zero, suc, ◌+◌, ◌-◌, ◌*◌, ◌/◌, ◌%◌, ◌<◌, ◌≡◌, refl, ap, ◌∙◌, ℤ, pos, Bool, true, false, some,
  none, Text, [], ◌∷◌, ◌++◌, leb, ltb, arith, if_cases, if◌then◌else◌, All, All-append, ◌>>=◌,
  text_eq_refl,
}
use yolo_server.Prelude.Assoc.{lookup, lookup-insert, text_key}
use yolo_server.Config.Store.{
  Config, as_int, as_negative_int, is_digit, minus, or_default, read_digits, read_number,
  read_signed, set, starts_with_digit, stoi, get_int,
}
use yolo_server.Server.Startup.{decimal, to_string}

abbrev AreDigits : Text → Type 0
AreDigits s = All (λ (c : ℕ). is_digit c ≡ true) s

decimal-AreDigits : (fuel n : ℕ) → AreDigits (decimal fuel n)
decimal-AreDigits zero n = tt
decimal-AreDigits (suc fuel) n =
    if_cases AreDigits (ltb n 10) _ _ (λ small. (ground arith, tt))
      (λ large.
        All-append (λ (c : ℕ). is_digit c ≡ true) (decimal fuel (n / 10)) ((48 + n % 10) ∷ [])
          (decimal-AreDigits fuel (n / 10)) (ground arith, tt))

-- One digit more.
read_digits-append :
    (m : ℕ) (s : Text) (c : ℕ)
    → AreDigits s
    → is_digit c ≡ true
    → read_digits m (s ++ c ∷ []) ≡ read_digits m s * 10 + (c - 48)
read_digits-append m [] c h digit = rw digit refl
read_digits-append m (d ∷ s) c h digit =
    rw h.0 (read_digits-append (m * 10 + (d - 48)) s c h.1 digit)

starts_with_digit-append :
    (s : Text) (c : ℕ) → AreDigits s → is_digit c ≡ true → starts_with_digit (s ++ c ∷ []) ≡ true
starts_with_digit-append [] c h digit = digit
starts_with_digit-append (d ∷ s) c h digit = h.0

starts_with_digit-decimal : (fuel n : ℕ) → starts_with_digit (decimal (suc fuel) n) ≡ true
starts_with_digit-decimal fuel n =
    if_cases (λ s. starts_with_digit s ≡ true) (ltb n 10) _ _ (λ small. ground arith)
      (λ large.
        starts_with_digit-append (decimal fuel (n / 10)) (48 + n % 10)
          (decimal-AreDigits fuel (n / 10)) (ground arith))

read_digits-decimal : (fuel n : ℕ) → n < fuel → read_digits 0 (decimal fuel n) ≡ n
read_digits-decimal zero n h = absurd (omega arith)
read_digits-decimal (suc fuel) n h =
    if_cases (λ s. read_digits 0 s ≡ n) (ltb n 10) _ _ (λ small. ground arith)
      (λ large.
        let rest = read_digits-decimal fuel (n / 10) (ground arith) in
        let more =
          read_digits-append 0 (decimal fuel (n / 10)) (48 + n % 10)
            (decimal-AreDigits fuel (n / 10)) (ground arith) in
        omega (arith, rest, more))

read_number-to_string : (n : ℕ) → read_number (to_string n) ≡ some n
read_number-to_string n =
    rw (starts_with_digit-decimal n n) (ap some (read_digits-decimal (suc n) n (omega arith)))

-- A text that begins with a digit has neither white space nor a sign in front.
stoi-digits : (s : Text) → starts_with_digit s ≡ true → stoi s ≡ (read_number s >>= as_int)
unfolding stoi read_signed
stoi-digits [] h = absurd (ground arith)
stoi-digits (c ∷ cs) h = ground (arith, h)

get_int_of_set :
    (key value : Text) (default_value : ℤ) (config : Config)
    → get_int key default_value (set key value config) ≡ or_default default_value (stoi value)
unfolding get_int set
get_int_of_set key value default_value config =
    ap (λ o. or_default default_value (o >>= stoi))
      (lookup-insert key key value config
        ∙ ap (λ b. if b then some value else lookup key config) (text_eq_refl key))

or_default-if :
    (d x : ℤ) (fits : Bool) → or_default d (if fits then some x else none) ≡ (if fits then x else d)
or_default-if d x true = refl
or_default-if d x false = refl

-- A number that is set in decimal is what getInt reads, and one with a minus in front its negative, if
-- it is an int of 32 bits; otherwise getInt returns the default.
pub get_int-set :
    (key : Text) (default_value : ℤ) (n : ℕ) (config : Config)
    → (get_int key default_value (set key (to_string n) config)
        ≡ (if leb n 2147483647 then pos n else default_value))
      × (get_int key default_value (set key (45 ∷ to_string n) config)
          ≡ (if leb n 2147483648 then minus n else default_value))
unfolding stoi read_signed
get_int-set key default_value n config = (
  get_int_of_set key (to_string n) default_value config
      ∙ ap (or_default default_value) (
          stoi-digits (to_string n) (starts_with_digit-decimal n n)
          ∙ ap (λ o. o >>= as_int) (read_number-to_string n))
      ∙ or_default-if default_value (pos n) (leb n 2147483647),
  get_int_of_set key (45 ∷ to_string n) default_value config
      ∙ ap (λ o. or_default default_value (o >>= as_negative_int)) (read_number-to_string n)
      ∙ or_default-if default_value (minus n) (leb n 2147483648),
)
