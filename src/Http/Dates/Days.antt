-- ===== src/Http/Dates/Days.antt =====
-- The calendar: dates as texts, and the instants with which their days begin.
use Prim.Native.Char.{code}
use event_observability_plat.Common.{
  ℕ, zero, suc, ◌+◌, ◌-◌, ◌*◌, ◌/◌, ◌%◌, ◌<◌, ◌≡◌, refl, ap, sym, ◌∙◌, inl, inr, arith, String,
  Bool, true, false, Bool-cases, some, if◌then◌else◌, leb, pos, ◌+ℤ◌, sub_ℕ, digit,
}
use event_observability_plat.Config.Numbers.{code-digit}
use event_observability_plat.Http.Dates.{
  codes, two, is_digit, is_leap, days_in, days_before, days_of_years, day, midnight, is_date,
  date_of, parse_codes, parse_date,
}

-- A date as YYYY-MM-DD.
unfoldable pub date_text : ℕ → ℕ → ℕ → String
date_text y month d = String.◌∷◌ (digit (y / 1000 % 10)) (
    String.◌∷◌ (digit (y / 100 % 10)) (
      String.◌∷◌ (digit (y / 10 % 10)) (
        String.◌∷◌ (digit (y % 10)) (
          String.◌∷◌ "-" (
            String.◌∷◌ (digit (month / 10 % 10)) (
              String.◌∷◌ (digit (month % 10)) (
                String.◌∷◌ "-"
                  (String.◌∷◌ (digit (d / 10 % 10)) (String.◌∷◌ (digit (d % 10)) "")))))))))

-- The date after a date.
abbrev pub Date : Type 0
Date = ℕ × ℕ × ℕ

unfoldable pub next_date : Date → Date
next_date (y, month, d) =
    if leb (suc d) (days_in month (is_leap y))
    then (y, month, suc d)
    else if leb (suc month) 12
    then (y, suc month, 1)
    else (suc y, 1, 1)

days_of_years-suc :
    (y : ℕ) → days_of_years (suc y) ≡ days_of_years y + (if is_leap y then 366 else 365)
unfolding days_of_years is_leap
days_of_years-suc y = ground arith

digit-IsDigit : (k : ℕ) → k < 10 → is_digit (code (digit k)) ≡ true
digit-IsDigit k h = ground (arith, code-digit k h)

two-digit : (n : ℕ) → n < 100 → two (code (digit (n / 10 % 10))) (code (digit (n % 10))) ≡ n
two-digit n h =
    ground (arith, code-digit (n / 10 % 10) (omega arith), code-digit (n % 10) (omega arith))

year-digits :
    (y : ℕ)
    → y < 10000
    → two (code (digit (y / 1000 % 10))) (code (digit (y / 100 % 10))) * 100
        + two (code (digit (y / 10 % 10))) (code (digit (y % 10)))
      ≡ y
year-digits y h = ground (
  arith,
  code-digit (y / 1000 % 10) (omega arith),
  code-digit (y / 100 % 10) (omega arith),
  code-digit (y / 10 % 10) (omega arith),
  code-digit (y % 10) (omega arith),
)

days_in_max : (month : ℕ) (leap : Bool) → days_in month leap < 32
unfolding days_in
days_in_max month leap = ground arith

pub parse-date_text :
    (y month d : ℕ)
    → y < 10000
    → is_date y month d ≡ true
    → parse_date (date_text y month d) ≡ some (midnight y month d)
unfolding parse_date parse_codes codes date_text date_of
parse-date_text y month d h v =
    let m100 : month < 100 = unfold is_date in ground arith in
    let d100 : d < 100 = unfold is_date in ground (arith, days_in_max month (is_leap y)) in
    rw
      (
        digit-IsDigit (y / 1000 % 10) (omega arith),
        digit-IsDigit (y / 100 % 10) (omega arith),
        digit-IsDigit (y / 10 % 10) (omega arith),
        digit-IsDigit (y % 10) (omega arith),
        digit-IsDigit (month / 10 % 10) (omega arith),
        digit-IsDigit (month % 10) (omega arith),
        digit-IsDigit (d / 10 % 10) (omega arith),
        digit-IsDigit (d % 10) (omega arith),
        year-digits y h,
        two-digit month m100,
        two-digit d d100,
        v,
      )
      refl

-- The number of a day, from the first of January of the year 0.
abbrev number : Date → ℕ
number (y, month, d) = days_of_years y + days_before month (is_leap y) + (d - 1)

year-length : (leap : Bool) → days_before 12 leap + 31 ≡ (if leap then 366 else 365)
unfolding days_before
year-length true = refl
year-length false = refl

before-suc :
    (month : ℕ) (leap : Bool)
    → 0 < month
    → days_before (suc month) leap ≡ days_before month leap + days_in month leap
unfolding days_before
before-suc zero leap h = absurd (omega arith)
before-suc (suc k) leap h = refl

days_in_min : (month : ℕ) (leap : Bool) → 0 < days_in month leap
unfolding days_in
days_in_min month leap = ground arith

first_of_month : (y month : ℕ) → 0 < month → month < 13 → is_date y month 1 ≡ true
unfolding is_date
first_of_month y month low high = ground (arith, days_in_min month (is_leap y))

before-first : (leap : Bool) → days_before 1 leap ≡ 0
unfolding days_before
before-first leap = refl

december : (leap : Bool) → days_in 12 leap ≡ 31
unfolding days_in
december leap = refl

abbrev pub IsDate : Date → Type 0
IsDate (y, month, d) = is_date y month d ≡ true

one_month :
    (y month d : ℕ)
    → is_date y month d ≡ true
    → (0 < month) × (month < 13) × (0 < d) × (d < suc (days_in month (is_leap y)))
unfolding is_date
one_month y month d v = (ground arith, ground arith, ground arith, ground arith)

-- The next date is one, and has the next number.
next-number :
    (y month d : ℕ)
    → is_date y month d ≡ true
    → IsDate (next_date (y, month, d))
      × (number (next_date (y, month, d)) ≡ number (y, month, d) + 1)
unfolding next_date
next-number y month d v =
    let (low, high, pos_d, fits) = one_month y month d v in
    elim (Bool-cases (leb (suc d) (days_in month (is_leap y)))) [
      | inl e ↦ rw e (unfold is_date in ground arith, omega arith)
      | inr e ↦
          let last : d ≡ days_in month (is_leap y) = ground arith in
          elim (Bool-cases (leb (suc month) 12)) [
            | inl f ↦
                rw (e, f)
                  (
                    first_of_month y (suc month) (omega arith) (ground arith),
                    omega (arith, before-suc month (is_leap y) low),
                  )
            | inr f ↦
                let twelve : month ≡ 12 = ground arith in
                let leap = is_leap y in
                let long : d ≡ 31 = last ∙ (ap (λ k. days_in k leap) twelve ∙ december leap) in
                let whole = year-length leap in
                let before_last : days_before month leap ≡ days_before 12 leap =
                  ap (λ k. days_before k leap) twelve in
                let year_end : days_of_years (suc y) + days_before 1 (is_leap (suc y)) + 0
                    ≡ number (y, month, d) + 1 =
                  omega (
                    arith,
                    days_of_years-suc y,
                    before-first (is_leap (suc y)),
                    before_last,
                    long,
                    whole,
                  ) in
                rw (e, f) (first_of_month (suc y) 1 (omega arith) (omega arith), year_end)
          ]
    ]

sub_ℕ-add : (n c k : ℕ) → sub_ℕ (n + k) c ≡ sub_ℕ n c +ℤ pos k
unfolding ◌+ℤ◌
sub_ℕ-add n c k = ground arith

midnight-number :
    (y month d : ℕ) → midnight y month d ≡ sub_ℕ (number (y, month, d) * day) (719528 * day)
unfolding midnight
midnight-number y month d = refl

-- The date that lies n days after a date.
unfoldable pub days_later : ℕ → Date → Date
days_later zero date = date
days_later (suc n) date = next_date (days_later n date)

days_later-number :
    (n : ℕ) (date : Date)
    → IsDate date
    → IsDate (days_later n date) × (number (days_later n date) ≡ number date + n)
unfolding days_later
days_later-number zero date v = (v, omega arith)
days_later-number (suc n) date v =
    let before = days_later-number n date v in
    let (y, month, d) = days_later n date in
    let (is, follows) = next-number y month d before.0 in (is, omega (arith, follows, before.1))

-- It begins n times 24 hours later.
pub days_later-midnight :
    (n : ℕ) (date : Date)
    → IsDate date
    → let (y, month, d) = date in
      let (y', month', d') = days_later n date in
      (is_date y' month' d' ≡ true) × (midnight y' month' d' ≡ midnight y month d +ℤ pos (n * day))
days_later-midnight n date v =
    let (is, later) = days_later-number n date v in
    let (y, month, d) = date in
    let (y', month', d') = days_later n date in
    let more : number (y', month', d') * day ≡ number (y, month, d) * day + n * day =
      omega (arith, later) in
    (
      is,
      midnight-number y' month' d'
          ∙ (ap (λ k. sub_ℕ k (719528 * day)) more
              ∙ (sub_ℕ-add (number (y, month, d) * day) (719528 * day) (n * day)
                  ∙ ap (λ z. z +ℤ pos (n * day)) (sym (midnight-number y month d)))),
    )
