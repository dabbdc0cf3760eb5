-- ===== src/Tests/Platform.antt =====
-- The configuration, the analytics and the middleware at concrete inputs.
use event_observability_plat.Common.{
  arith, ◌≤◌, ◌<◌, ◌*◌, ◌+ℤ◌, none, some, pos, refl, ◌≡◌, ℕ, suc, String, true, false, str_eq,
  str_eq_iff, List, [], ◌∷◌, ◌++◌, All, if◌then◌else◌, ℤ, negsuc, itoa, split, trim_space,
}
use event_observability_plat.Http.Dates.{parse_date, midnight, day, days_in, is_leap, is_date}
use event_observability_plat.Http.Dates.Days.{next_date, days_later}
use event_observability_plat.Http.Analytics.Days.{range_of, days_are_answered}
use event_observability_plat.System.{empty}
use event_observability_plat.Errors.{ok}
use event_observability_plat.Domain.{Event, pending, DailyEventStat}
use event_observability_plat.Runtime.{World, Machine, LogRow, http_requests, call}
use event_observability_plat.Storage.Events.{
  list_by_status, select_by_status, take, scan_rows, list_answer, insert_by_time, same_status,
}
use event_observability_plat.Storage.Querier.{daily_events, in_range}
use event_observability_plat.Storage.Querier.Counts.{counted, inserted, daily_events_counts}
use event_observability_plat.Config.{Environ, get_env_string_slice, atoi, natural, digits, trimmed}
use event_observability_plat.Config.Loaded.{IsNonempty, commas, get_env_string_slice-All}
use event_observability_plat.Http.Analytics.{DateRange, after_query, daily_events_reply}
use event_observability_plat.Http.Analytics.Ranges.{IsRange, daily_events_reply_cases}
use event_observability_plat.Http.Middleware.{
  Handler, HttpRequest, Served, server_handler, fields, traced, written, add_count, first_status,
}
use event_observability_plat.Http.Middleware.Chained.{inner, identified, server_handler_cases}
use event_observability_plat.Messaging.Carrier.{get}

abbrev environ : Environ
environ = record {
  getenv = λ key.
      if str_eq key "HTTP_PORT"
      then itoa 9090
      else if str_eq key "KAFKA_BROKERS"
      then "a:1, b:2,"
      else "";
  parse_duration = λ s. none;
}

atoi_test :
    (atoi "+12" ≡ some (pos 12))
    × (atoi "-7" ≡ some (negsuc 6))
    × (atoi "1a" ≡ none)
    × (atoi "" ≡ none)
unfolding atoi natural digits
atoi_test = (refl, refl, refl, refl)

brokers_test : get_env_string_slice environ "KAFKA_BROKERS" [] ≡ "a:1" ∷ "b:2" ∷ []
unfolding get_env_string_slice trimmed split trim_space
brokers_test = refl

localhost_set : All IsNonempty ("localhost:19092" ∷ [])
localhost_set = (λ h. ground (arith, h, str_eq_iff "localhost:19092" ""), tt)

get_env_string_slice-All_example :
    All IsNonempty (get_env_string_slice environ "KAFKA_BROKERS" ("localhost:19092" ∷ []))
    × ((n : ℕ)
        → environ.getenv "KAFKA_BROKERS" ≡ commas (suc n)
        → get_env_string_slice environ "KAFKA_BROKERS" ("localhost:19092" ∷ []) ≡ [])
get_env_string_slice-All_example =
    get_env_string_slice-All environ "KAFKA_BROKERS" ("localhost:19092" ∷ []) localhost_set

abbrev machine : Machine
machine = record {
  fault = λ k. none;
  clock = λ k. pos k;
  uuid = λ k. "id";
  json_error = λ s. "invalid JSON";
  propagated = [];
}

abbrev event : ℤ → Event
event at = record {
  id = "id";
  idempotency_key = "k";
  source = "shop";
  event_type = "sale";
  payload = "{}";
  status = pending;
  retry_count = 0;
  created_at = at;
  processed_at = none;
}

abbrev row : ℤ → LogRow
row day = record {
  event_id = "id";
  source = "shop";
  event_type = "sale";
  status = "processing";
  processed_at = day;
  date = day;
}

abbrev filled : World
filled = record {
  tick = 0;
  events = event (pos 9) ∷ event (pos 4) ∷ event (pos 7) ∷ [];
  keys = [];
  log = row (pos 0) ∷ row (pos 0) ∷ row (pos 5) ∷ [];
  sent = [];
  counts = [];
}

lists_two :
    (list_by_status machine pending (pos 2) filled).0 ≡ ok (event (pos 4) ∷ event (pos 7) ∷ [])
unfolding list_by_status list_answer scan_rows select_by_status same_status insert_by_time take call
lists_two = refl

daily_events_counts_example :
    (stats : List DailyEventStat) × ((daily_events machine (pos 0) (pos 3) filled).0 ≡ ok stats)
    × ((d : ℤ) (s t : String)
        → counted d s t stats
          ≡ (if in_range (pos 0) (pos 3) d then inserted d s t filled.log else 0))
daily_events_counts_example = daily_events_counts machine (pos 0) (pos 3) filled (λ k. refl)

abbrev one_day : DateRange
one_day = record { from = "2026-01-01"; to = "2026-01-01" }

daily_events_reply_cases_example :
    ((from to : ℤ)
      → IsRange one_day from to
      → daily_events_reply machine one_day filled
        ≡ after_query machine
            (daily_events machine from to filled).0
            (daily_events machine from to filled).1)
    × (¬ ((from : ℤ) × (to : ℤ) × IsRange one_day from to)
        → ((daily_events_reply machine one_day filled).0.status ≡ 400)
          × ((daily_events_reply machine one_day filled).1 ≡ filled))
daily_events_reply_cases_example = daily_events_reply_cases machine one_day filled

-- Routes that panic before anything is written.
abbrev careless : Handler
careless r s = record s { panicked = true }

abbrev get_root : HttpRequest
get_root = record {
  method = "GET";
  path = "/";
  content_type = "";
  body = "";
  range = record { from = ""; to = "" };
  request_header = "";
  span = some "t";
  context = record { request_id = ""; trace_id = "" };
  limit = none;
}

abbrev unserved : Served
unserved = record { headers = []; status = none; lines = []; world = empty; panicked = false }

server_handler_cases_example :
    let out = careless (inner "fresh" get_root) (identified "fresh" get_root unserved) in
    let whole = server_handler "fresh" careless get_root unserved in
    (out.panicked ≡ false
      → whole.lines
        ≡ out.lines ++ record { text = "request"; fields = fields (traced get_root) } ∷ [])
    × (out.panicked ≡ false
        → whole.world ≡ add_count (http_requests "GET" "/" (itoa (written out.status))) out.world)
    × (out.panicked ≡ true
        → (whole.status ≡ first_status out.status 500)
          × (whole.world ≡ out.world)
          × (whole.lines
              ≡ out.lines
                ++ record { text = "panic recovered"; fields = fields get_root.context } ∷ []))
    × (whole.panicked ≡ false)
    × (out.panicked ≡ false → (whole.headers ≡ out.headers) × (whole.status ≡ out.status))
    × (out.panicked ≡ true
        → out.status ≡ none
        → get whole.headers "Content-Type" ≡ "text/plain; charset=utf-8")
server_handler_cases_example = server_handler_cases "fresh" careless get_root unserved

-- From the last day of February in a leap year to the first of March.
abbrev over_leap_day : DateRange
over_leap_day = range_of (2024, 2, 29) (2024, 3, 1)

days_are_answered_example :
    let reply = daily_events_reply machine over_leap_day filled in
    let asked =
      daily_events machine (midnight 2024 2 29) (midnight 2024 2 29 +ℤ pos (1 * day)) filled in
    (1 ≤ 366 → reply ≡ after_query machine asked.0 asked.1)
    × (366 < 1 → (reply.0.status ≡ 400) × (reply.1 ≡ filled))
unfolding next_date days_in is_leap is_date days_later
days_are_answered_example =
    days_are_answered machine filled 2024 2 29 1 refl (omega arith) (omega arith)

epoch : parse_date "1970-01-01" ≡ some (pos 0)
unfolding parse_date
epoch = refl

no_leap_day : parse_date "2025-02-29" ≡ none
unfolding parse_date
no_leap_day = refl
