-- ===== src/Http/Analytics/Ranges.antt =====
-- Which ranges are answered, and with what.
use event_observability_plat.Common.{
  ◌≡◌, ◌≢◌, ◌⊎◌, inl, inr, refl, arith, ◌||◌, str_eq, str_eq_iff, Bool-cases, Option, none, some, ℤ,
  ltb_ℤ, ◌-ℤ◌, ◌≤ℤ◌,
}
use event_observability_plat.Runtime.{World, Machine}
use event_observability_plat.Storage.Querier.{daily_events}
use event_observability_plat.Http.Dates.{parse_date}
use event_observability_plat.Http.{respond_error}
use event_observability_plat.Http.Analytics.{
  DateRange, longest, bad_date, after_query, query_range, with_dates, daily_events_reply,
}

-- Two dates that are given, can be read, and are a range of at most 366 days.
pub record IsRange (r : DateRange) (from to : ℤ) : Type 0 where
  pub given_from : r.from ≢ ""
  pub given_to : r.to ≢ ""
  pub read_from : parse_date r.from ≡ some from
  pub read_to : parse_date r.to ≡ some to
  pub ordered : from ≤ℤ to
  pub short : (to -ℤ from) ≤ℤ longest

module _ (m : Machine) (r : DateRange) (w : World) where
  -- A range of at most 366 days is answered with what the query gives: 200 and its rows, or 500.
  answers_range :
      (from to : ℤ)
      → IsRange r from to
      → daily_events_reply m r w
        ≡ after_query m (daily_events m from to w).0 (daily_events m from to w).1
  unfolding daily_events_reply with_dates query_range
  answers_range from to i = ground (
    arith,
    str_eq_iff r.from "",
    str_eq_iff r.to "",
    i.given_from,
    i.given_to,
    i.read_from,
    i.read_to,
    i.ordered,
    i.short,
  )

  query-IsRange :
      (from to : ℤ)
      → r.from ≢ ""
      → r.to ≢ ""
      → parse_date r.from ≡ some from
      → parse_date r.to ≡ some to
      → IsRange r from to
        ⊎ (((query_range m from to w).0.status ≡ 400) × ((query_range m from to w).1 ≡ w))
  unfolding query_range respond_error
  query-IsRange from to f t a b = elim (Bool-cases (ltb_ℤ to from)) [
    | inl e ↦ inr (ground (arith, e), ground (arith, e))
    | inr e ↦ elim (Bool-cases (ltb_ℤ longest (to -ℤ from))) [
      | inl l ↦ inr (ground (arith, e, l), ground (arith, e, l))
      | inr l ↦ inl (record {
        given_from = f;
        given_to = t;
        read_from = a;
        read_to = b;
        ordered = ground (arith, e);
        short = ground (arith, l);
      })
    ]
  ]

  dates-cases :
      (a b : Option ℤ)
      → r.from ≢ ""
      → r.to ≢ ""
      → parse_date r.from ≡ a
      → parse_date r.to ≡ b
      → ((from : ℤ) × (to : ℤ) × IsRange r from to)
        ⊎ (((with_dates m a b w).0.status ≡ 400) × ((with_dates m a b w).1 ≡ w))
  unfolding with_dates bad_date respond_error
  dates-cases none b f t x y = inr (refl, refl)
  dates-cases (some from) none f t x y = inr (refl, refl)
  dates-cases (some from) (some to) f t x y = elim (query-IsRange from to f t x y) [
    | inl i ↦ inl (from, to, i)
    | inr e ↦ inr e
  ]

  -- A request is for such a range or is refused, and then nothing is asked.
  pub reply_cases :
      ((from : ℤ) × (to : ℤ) × IsRange r from to)
      ⊎ (((daily_events_reply m r w).0.status ≡ 400) × ((daily_events_reply m r w).1 ≡ w))
  unfolding daily_events_reply respond_error
  reply_cases = elim (Bool-cases (str_eq r.from "" || str_eq r.to "")) [
    | inl e ↦ inr (ground (arith, e), ground (arith, e))
    | inr e ↦
        let f : r.from ≢ "" = λ x. ground (arith, e, str_eq_iff r.from "") in
        let t : r.to ≢ "" = λ x. ground (arith, e, str_eq_iff r.to "") in
        elim (dates-cases (parse_date r.from) (parse_date r.to) f t refl refl) [
          | inl i ↦ inl i
          | inr (refused, kept) ↦ inr (ground (arith, e, refused), ground (arith, e, kept))
        ]
  ]

  -- A request of which both parameters are given and are days that make a range of at most 366 days is
  -- answered with what the query for these days gives; every other one is answered 400, and nothing is asked.
  pub daily_events_reply_cases :
      ((from to : ℤ)
        → IsRange r from to
        → daily_events_reply m r w
          ≡ after_query m (daily_events m from to w).0 (daily_events m from to w).1)
      × (¬ ((from : ℤ) × (to : ℤ) × IsRange r from to)
          → ((daily_events_reply m r w).0.status ≡ 400) × ((daily_events_reply m r w).1 ≡ w))
  daily_events_reply_cases = (
    answers_range,
    λ none_is. elim reply_cases [ inl i ↦ absurd (none_is i) | inr refused ↦ refused ],
  )
