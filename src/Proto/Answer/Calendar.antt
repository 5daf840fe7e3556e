-- ===== src/Proto/Answer/Calendar.antt =====
-- The calendar of nod-proto/src/answer.rs.
use nod.Base.{
  sym, ◌↔◌, ◌≤◌, ◌-◌, ℕ, suc, zero, ◌+◌, ◌/◌, ◌%◌, ◌<◌, ◌≡◌, refl, true, List, [], ◌∷◌, arith,
  if◌then◌else◌, is_ascii_digit,
}
use nod.Proto.Answer.{parse_digits, is_leap_year, days_in_month, in_month, date_bytes}

-- The leap days of the years from 1 to `year`.
abbrev leap_days : ℕ → ℕ
leap_days year = year / 4 + year / 400 - year / 100

abbrev entry : ℕ → List ℕ → ℕ
entry n [] = 0
entry zero (x ∷ xs) = x
entry (suc n) (x ∷ xs) = entry n xs

-- The table of the Gregorian calendar.
abbrev pub month_length : ℕ → ℕ → ℕ
month_length year month = entry month (
    0
    ∷ 31
    ∷ (28 + leap_days year - leap_days (year - 1))
    ∷ 31
    ∷ 30
    ∷ 31
    ∷ 30
    ∷ 31
    ∷ 31
    ∷ 30
    ∷ 31
    ∷ 30
    ∷ 31
    ∷ [])

abbrev pub IsDate : ℕ → ℕ → ℕ → Type 0
IsDate year month day =
    (1 ≤ year) × (1 ≤ month) × (month ≤ 12) × (1 ≤ day) × (day ≤ month_length year month)

-- `YYYY-MM-DD`, in bytes.
abbrev pub digit : ℕ → ℕ
digit n = 48 + n % 10

abbrev pub date_text : ℕ → ℕ → ℕ → List ℕ
date_text year month day =
    digit (year / 1000)
    ∷ digit (year / 100)
    ∷ digit (year / 10)
    ∷ digit year
    ∷ b'-'
    ∷ digit (month / 10)
    ∷ digit month
    ∷ b'-'
    ∷ digit (day / 10)
    ∷ digit day
    ∷ []

is_ascii_digit-digit : (n : ℕ) → is_ascii_digit (digit n) ≡ true
unfolding is_ascii_digit
is_ascii_digit-digit n = ground arith

year_read :
    (n : ℕ)
    → n < 10000
    → parse_digits 0 (digit (n / 1000) ∷ digit (n / 100) ∷ digit (n / 10) ∷ digit n ∷ []) ≡ n
year_read n h = omega (arith, h)

pair_read : (n : ℕ) → n < 100 → parse_digits 0 (digit (n / 10) ∷ digit n ∷ []) ≡ n
pair_read n h = omega (arith, h)

february :
    (y : ℕ)
    → 28 + leap_days (suc y) - leap_days (suc y - 1) ≡ (if is_leap_year (suc y) then 29 else 28)
unfolding is_leap_year
february y = ground arith

days_in_month_lem : (y month : ℕ) → days_in_month (suc y) month ≡ month_length (suc y) month
unfolding days_in_month
days_in_month_lem y zero = refl
days_in_month_lem y (suc zero) = refl
days_in_month_lem y (suc (suc zero)) = sym (february y)
days_in_month_lem y (suc (suc (suc zero))) = refl
days_in_month_lem y (suc (suc (suc (suc zero)))) = refl
days_in_month_lem y (suc (suc (suc (suc (suc zero))))) = refl
days_in_month_lem y (suc (suc (suc (suc (suc (suc zero)))))) = refl
days_in_month_lem y (suc (suc (suc (suc (suc (suc (suc zero))))))) = refl
days_in_month_lem y (suc (suc (suc (suc (suc (suc (suc (suc zero)))))))) = refl
days_in_month_lem y (suc (suc (suc (suc (suc (suc (suc (suc (suc zero))))))))) = refl
days_in_month_lem y (suc (suc (suc (suc (suc (suc (suc (suc (suc (suc zero)))))))))) = refl
days_in_month_lem y (suc (suc (suc (suc (suc (suc (suc (suc (suc (suc (suc zero))))))))))) = refl
days_in_month_lem y (suc (suc (suc (suc (suc (suc (suc (suc (suc (suc (suc (suc zero)))))))))))) =
    refl
days_in_month_lem y
      (suc (suc (suc (suc (suc (suc (suc (suc (suc (suc (suc (suc (suc month))))))))))))) =
    ground arith

at_most_twelve : (year month : ℕ) → 1 ≤ month_length year month → month ≤ 12
at_most_twelve year zero h = omega arith
at_most_twelve year (suc zero) h = omega arith
at_most_twelve year (suc (suc zero)) h = omega arith
at_most_twelve year (suc (suc (suc zero))) h = omega arith
at_most_twelve year (suc (suc (suc (suc zero)))) h = omega arith
at_most_twelve year (suc (suc (suc (suc (suc zero))))) h = omega arith
at_most_twelve year (suc (suc (suc (suc (suc (suc zero)))))) h = omega arith
at_most_twelve year (suc (suc (suc (suc (suc (suc (suc zero))))))) h = omega arith
at_most_twelve year (suc (suc (suc (suc (suc (suc (suc (suc zero)))))))) h = omega arith
at_most_twelve year (suc (suc (suc (suc (suc (suc (suc (suc (suc zero))))))))) h = omega arith
at_most_twelve year (suc (suc (suc (suc (suc (suc (suc (suc (suc (suc zero)))))))))) h = omega arith
at_most_twelve year (suc (suc (suc (suc (suc (suc (suc (suc (suc (suc (suc zero))))))))))) h =
    omega arith
at_most_twelve year (suc (suc (suc (suc (suc (suc (suc (suc (suc (suc (suc (suc zero)))))))))))) h =
    omega arith
at_most_twelve year
      (suc (suc (suc (suc (suc (suc (suc (suc (suc (suc (suc (suc (suc month))))))))))))) h =
    absurd (omega (arith, h))

in_month-IsDate : (year month day : ℕ) → (in_month year month day ≡ true) ↔ IsDate year month day
unfolding in_month
in_month-IsDate zero month day = (λ h. absurd (cc h), λ h. absurd (omega (arith, h.0)))
in_month-IsDate (suc y) zero day =
    (λ h. absurd (ground (arith, h, days_in_month_lem y zero)), λ h. absurd (omega (arith, h.1)))
in_month-IsDate (suc y) (suc m) day = (
  λ h.
      let short : day ≤ month_length (suc y) (suc m) =
        ground (arith, h, days_in_month_lem y (suc m)) in
      let first : 1 ≤ day = ground (arith, h) in
      (
        omega arith,
        omega arith,
        at_most_twelve (suc y) (suc m) (omega (arith, short, first)),
        first,
        short,
      ),
  λ h. ground (arith, h.3, h.4, days_in_month_lem y (suc m)),
)

-- The date of every year, month and day with the digits to write it is accepted exactly if it is one
-- of the Gregorian calendar: the year is not zero, the month is one of the twelve, and the day is one of
-- the month's, which has its length in the common table, and in February one day more for each leap
-- day of the year, of which n years from the first have n/4 - n/100 + n/400.
pub dates_follow_the_calendar :
    (year month day : ℕ)
    → year < 10000
    → month < 100
    → day < 100
    → (date_bytes (date_text year month day) ≡ true) ↔ IsDate year month day
unfolding date_bytes
dates_follow_the_calendar year month day hy hm hd =
    rw
      (
        is_ascii_digit-digit (year / 1000),
        is_ascii_digit-digit (year / 100),
        is_ascii_digit-digit (year / 10),
        is_ascii_digit-digit year,
        is_ascii_digit-digit (month / 10),
        is_ascii_digit-digit month,
        is_ascii_digit-digit (day / 10),
        is_ascii_digit-digit day,
        year_read year hy,
        pair_read month hm,
        pair_read day hd,
      )
      (in_month-IsDate year month day)
