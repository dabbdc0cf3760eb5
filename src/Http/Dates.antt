-- ===== src/Http/Dates.antt =====
-- `time.Parse` with the layout "2006-01-02", as internal/app/http/handler/analytics.go uses it.
pub mod Days
use Prim.Native.Char.{code}
use event_observability_plat.Common.{
  ℕ, zero, suc, ◌+◌, ◌-◌, ◌*◌, ◌/◌, ◌%◌, String, Bool, true, false, not, ◌&&◌, ◌||◌, Option, none,
  some, List, [], ◌∷◌, if◌then◌else◌, ◌==◌, leb, ℤ, sub_ℕ,
}

-- The numbers of the characters.
unfoldable pub codes : String → List ℕ
codes String.[] = []
codes (String.◌∷◌ c s) = code c ∷ codes s

abbrev pub is_digit : ℕ → Bool
is_digit c = leb 48 c && leb c 57

abbrev pub two : ℕ → ℕ → ℕ
two a b = (a - 48) * 10 + (b - 48)

unfoldable pub is_leap : ℕ → Bool
is_leap y = y % 4 == 0 && (not (y % 100 == 0) || y % 400 == 0)

-- How many days a month has.
unfoldable pub days_in : ℕ → Bool → ℕ
days_in month leap =
    if month == 2
    then (if leap then 29 else 28)
    else if month == 4 || (month == 6 || (month == 9 || month == 11))
    then 30
    else 31

-- How many days of a year lie before a month.
unfoldable pub days_before : ℕ → Bool → ℕ
unfolding days_in
days_before zero leap = 0
days_before (suc zero) leap = 0
days_before (suc (suc k)) leap = days_before (suc k) leap + days_in (suc k) leap

-- How many days the years from 0 up to a year have.
unfoldable pub days_of_years : ℕ → ℕ
days_of_years y = 365 * y + (y + 3) / 4 + (y + 399) / 400 - (y + 99) / 100

-- 24 * time.Hour
abbrev pub day : ℕ
day = 24 * 3600000000000

-- The midnight with which a day begins; 719528 days lie before 1970.
unfoldable pub midnight : ℕ → ℕ → ℕ → ℤ
unfolding days_before days_of_years is_leap
midnight y month d =
    sub_ℕ ((days_of_years y + days_before month (is_leap y) + (d - 1)) * day) (719528 * day)

unfoldable pub is_date : ℕ → ℕ → ℕ → Bool
unfolding days_in is_leap
is_date y month d = leb 1 month && (leb month 12 && (leb 1 d && leb d (days_in month (is_leap y))))

unfoldable pub date_of : ℕ → ℕ → ℕ → Option ℤ
unfolding is_date midnight
date_of y month d = if is_date y month d then some (midnight y month d) else none

-- Four digits, two and two, with a `-` between them, and nothing behind.
unfoldable pub parse_codes : List ℕ → Option ℤ
unfolding date_of
parse_codes (a ∷ b ∷ c ∷ e ∷ p ∷ f ∷ g ∷ q ∷ h ∷ i ∷ []) =
    if is_digit a
      && (is_digit b
          && (is_digit c
              && (is_digit e
                  && (p == 45
                      && (is_digit f && (is_digit g && (q == 45 && (is_digit h && is_digit i))))))))
    then date_of (two a b * 100 + two c e) (two f g) (two h i)
    else none
parse_codes _ = none

unfoldable pub parse_date : String → Option ℤ
unfolding codes parse_codes
parse_date s = parse_codes (codes s)
