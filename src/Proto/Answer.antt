-- ===== src/Proto/Answer.antt =====
-- nod-proto/src/answer.rs: an answer field, an answer value, and their validation.
-- The length of a field's JSON text is serde_json's: it is a function that `validate` is given.
pub mod Calendar
use nod.Base.{
  ℕ, ◌+◌, ◌-◌, ◌*◌, ◌%◌, String, Bool, true, false, not, ◌&&◌, ◌||◌, List, [], ◌∷◌, ◌==◌, ltb, leb,
  eqb, if◌then◌else◌, length, any, all, drop, take, bytes, byte_len, char_count, trim, is_control,
  is_ascii_digit, is_ascii_alphanumeric, is_blank, every_char, some_char, starts_with_char,
  ends_with_char, strip_char, split, String-discrete,
}

pub data AnswerValue : Type 0 where
  choice number date date_time : String → AnswerValue

pub record AnswerChoice : Type 0 where
  pub id : String
  pub label : String

pub data AnswerField : Type 0 where
  choice : String → List AnswerChoice → AnswerValue → AnswerField
  number date date_time : String → AnswerValue → AnswerField

pub AnswerValue-discrete : Discrete AnswerValue
AnswerValue-discrete = hlevel String-discrete

pub AnswerChoice-discrete : Discrete AnswerChoice
AnswerChoice-discrete = hlevel String-discrete

pub AnswerField-discrete : Discrete AnswerField
AnswerField-discrete = hlevel (String-discrete, AnswerValue-discrete, AnswerChoice-discrete)

-- `Result<(), &'static str>`.
pub data Check : Type 0 where
  valid : Check
  invalid : String → Check

unfoldable pub label_of : AnswerField → String
label_of (AnswerField.choice l cs d) = l
label_of (AnswerField.number l d) = l
label_of (AnswerField.date l d) = l
label_of (AnswerField.date_time l d) = l

unfoldable pub default_value : AnswerField → AnswerValue
default_value (AnswerField.choice l cs d) = d
default_value (AnswerField.number l d) = d
default_value (AnswerField.date l d) = d
default_value (AnswerField.date_time l d) = d

unfoldable pub valid_label : String → ℕ → Bool
unfolding is_control
valid_label value max =
    not (is_blank value)
    && (trim value == value)
    && leb (char_count value) max
    && not (some_char is_control value)

-- The parts of `valid_decimal`: the digits before and behind the point.
valid_integer : String → Bool
unfolding is_ascii_digit
valid_integer integer =
    not (is_blank integer)
    && leb (byte_len integer) 12
    && every_char is_ascii_digit integer
    && not (ltb 1 (byte_len integer) && starts_with_char b'0' integer)

valid_fraction : String → Bool
unfolding is_ascii_digit
valid_fraction fraction =
    not (is_blank fraction)
    && leb (byte_len fraction) 6
    && not (ends_with_char b'0' fraction)
    && every_char is_ascii_digit fraction

decimal_parts : String → List String → Bool
unfolding valid_integer valid_fraction
decimal_parts value [] = false
decimal_parts value (integer ∷ []) =
    valid_integer integer && not (starts_with_char b'-' value && (integer == "0"))
decimal_parts value (integer ∷ fraction ∷ []) = valid_integer integer && valid_fraction fraction
decimal_parts value (integer ∷ fraction ∷ more ∷ rest) = false

unfoldable pub valid_decimal : String → Bool
unfolding decimal_parts split
valid_decimal value = decimal_parts value (split b'.' (strip_char b'-' value))

-- `str::parse` of a run of digits.
abbrev pub parse_digits : ℕ → List ℕ → ℕ
parse_digits acc [] = acc
parse_digits acc (c ∷ cs) = parse_digits (acc * 10 + (c - 48)) cs

unfoldable pub is_leap_year : ℕ → Bool
is_leap_year year = eqb (year % 4) 0 && (not (eqb (year % 100) 0) || eqb (year % 400) 0)

-- The `match month` of `valid_date`.
unfoldable pub days_in_month : ℕ → ℕ → ℕ
unfolding is_leap_year
days_in_month year month =
    if any (eqb month) (1 ∷ 3 ∷ 5 ∷ 7 ∷ 8 ∷ 10 ∷ 12 ∷ [])
    then 31
    else if any (eqb month) (4 ∷ 6 ∷ 9 ∷ 11 ∷ [])
    then 30
    else if eqb month 2
    then (if is_leap_year year then 29 else 28)
    else 0

unfoldable pub in_month : ℕ → ℕ → ℕ → Bool
unfolding days_in_month
in_month year month day = not (eqb year 0) && not (eqb day 0) && leb day (days_in_month year month)

-- `valid_date` on the ten bytes.
unfoldable pub date_bytes : List ℕ → Bool
unfolding is_ascii_digit in_month
date_bytes (y0 ∷ y1 ∷ y2 ∷ y3 ∷ dash ∷ m0 ∷ m1 ∷ dash' ∷ d0 ∷ d1 ∷ []) =
    eqb dash b'-'
    && eqb dash' b'-'
    && all is_ascii_digit (y0 ∷ y1 ∷ y2 ∷ y3 ∷ m0 ∷ m1 ∷ d0 ∷ d1 ∷ [])
    && in_month (parse_digits 0 (y0 ∷ y1 ∷ y2 ∷ y3 ∷ [])) (parse_digits 0 (m0 ∷ m1 ∷ []))
        (parse_digits 0 (d0 ∷ d1 ∷ []))
date_bytes _ = false

unfoldable pub valid_date : String → Bool
unfolding date_bytes
valid_date value = date_bytes (bytes value)

-- `valid_instant` behind the date: "T", hours, ":", minutes, ":00Z".
unfoldable pub clock_bytes : List ℕ → Bool
unfolding is_ascii_digit
clock_bytes (t ∷ h0 ∷ h1 ∷ colon ∷ m0 ∷ m1 ∷ colon' ∷ s0 ∷ s1 ∷ z ∷ []) =
    eqb t b'T'
    && eqb colon b':'
    && (eqb colon' b':' && eqb s0 b'0' && eqb s1 b'0' && eqb z b'Z')
    && all is_ascii_digit (h0 ∷ h1 ∷ m0 ∷ m1 ∷ [])
    && ltb (parse_digits 0 (h0 ∷ h1 ∷ [])) 24
    && ltb (parse_digits 0 (m0 ∷ m1 ∷ [])) 60
clock_bytes _ = false

unfoldable pub valid_instant : String → Bool
unfolding date_bytes clock_bytes
valid_instant value =
    let b = bytes value in
    eqb (length b) 20 && all (λ c. ltb c 128) b && date_bytes (take 10 b) && clock_bytes (drop 10 b)

value_fits : AnswerField → AnswerValue → Bool
unfolding valid_decimal valid_date valid_instant
value_fits (AnswerField.choice l cs d) (AnswerValue.choice choice_id) =
    any (λ c. c.id == choice_id) cs
value_fits (AnswerField.number l d) (AnswerValue.number decimal) = valid_decimal decimal
value_fits (AnswerField.date l d) (AnswerValue.date day) = valid_date day
value_fits (AnswerField.date_time l d) (AnswerValue.date_time instant) = valid_instant instant
value_fits _ _ = false

unfoldable pub validate_value : AnswerField → AnswerValue → Check
unfolding value_fits
validate_value field value =
    if value_fits field value then valid else invalid "answer value does not match definition"

is_choice_id : ℕ → Bool
unfolding is_ascii_alphanumeric
is_choice_id c = is_ascii_alphanumeric c || eqb c b'_' || eqb c b'-'

-- The loop over `choices`; `seen` is `choices[..i]`, the latest first.
choices_ok : List AnswerChoice → List AnswerChoice → Bool
unfolding is_choice_id valid_label
choices_ok seen [] = true
choices_ok seen (c ∷ cs) =
    not (is_blank c.id)
    && leb (byte_len c.id) 40
    && every_char is_choice_id c.id
    && valid_label c.label 48
    && not (any (λ old. (old.id == c.id) || (old.label == c.label)) seen)
    && choices_ok (c ∷ seen) cs

valid_choices : AnswerField → Check → Check
unfolding choices_ok
valid_choices (AnswerField.choice l cs d) rest =
    if not (leb 2 (length cs) && leb (length cs) 12)
    then invalid "choice count must be 2–12"
    else if choices_ok [] cs
    then rest
    else invalid "invalid or duplicate choice"
valid_choices _ rest = rest

unfoldable pub validate : (AnswerField → ℕ) → AnswerField → Check
unfolding valid_choices valid_label validate_value label_of default_value
validate json_len field =
    if not (valid_label (label_of field) 64)
    then invalid "invalid answer label"
    else if ltb 4096 (json_len field)
    then invalid "answer definition exceeds 4096 bytes"
    else valid_choices field (validate_value field (default_value field))
