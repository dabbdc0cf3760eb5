-- ===== src/Http/Analytics.antt =====
-- internal/app/http/handler/analytics.go. The querier is that of ClickHouse; log lines are left out.
pub mod Ranges
pub mod Days
use event_observability_plat.Common.{
  ℕ, ◌*◌, ◌+◌, ◌≤◌, ◌<◌, ◌≡◌, ◌≢◌, ◌⊎◌, ◌↔◌, inl, inr, refl, ap, ◌∙◌, arith, String, Bool, true,
  false, ◌||◌, str_eq, str_eq_iff, Bool-cases, Option, Option-cases, none, some, List, [], ◌∷◌,
  ◌++◌, if◌then◌else◌, ℤ, pos, ltb_ℤ, ◌-ℤ◌, ◌≤ℤ◌, ◌<ℤ◌,
}
use event_observability_plat.Errors.{Err, Result, ok, err}
use event_observability_plat.Domain.{DailyEventStat}
use event_observability_plat.Runtime.{World, Machine, M, ◌>>=◌, ◌>>◌, pure}
use event_observability_plat.Storage.Querier.{daily_events}
use event_observability_plat.Http.Dates.{parse_date}
use event_observability_plat.Http.{Reply, stats, write_json, respond_error}

-- The two query parameters; a parameter that is missing is the empty text.
pub record DateRange : Type 0 where
  pub from : String
  pub to : String

-- 366 * 24 * time.Hour
abbrev pub longest : ℤ
longest = pos (366 * 24 * 3600000000000)

unfoldable pub bad_date : String → Reply
bad_date name = respond_error 400 "INVALID_DATE" name

module _ (m : Machine) where
  unfoldable pub after_query : Result (List DailyEventStat) → M Reply
  after_query (err e) = pure (respond_error 500 "QUERY_ERROR" "failed to query analytics")
  after_query (ok rows) = pure (write_json 200 (stats rows))

  -- The handler from the comparison of the two dates on.
  unfoldable pub query_range : ℤ → ℤ → M Reply
  query_range from to =
      if ltb_ℤ to from
      then pure (respond_error 400 "INVALID_RANGE" "'to' must be equal to or after 'from'")
      else if ltb_ℤ longest (to -ℤ from)
      then pure (respond_error 400 "RANGE_TOO_LARGE" "date range cannot exceed 366 days")
      else do rows ← daily_events m from to; after_query rows

  unfoldable pub with_dates : Option ℤ → Option ℤ → M Reply
  with_dates none to = pure (bad_date "'from' must be in YYYY-MM-DD format")
  with_dates (some from) none = pure (bad_date "'to' must be in YYYY-MM-DD format")
  with_dates (some from) (some to) = query_range from to

  -- `DailyEvents`
  unfoldable pub daily_events_reply : DateRange → M Reply
  daily_events_reply r =
      if str_eq r.from "" || str_eq r.to ""
      then pure (
          respond_error 400 "MISSING_PARAMS"
            "query parameters 'from' and 'to' are required (format: YYYY-MM-DD)")
      else with_dates (parse_date r.from) (parse_date r.to)
