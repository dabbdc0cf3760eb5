-- ===== src/Storage/Analytics.antt =====
-- internal/infra/storage/clickhouse/event_writer.go over the table events_log.
use event_observability_plat.Common.{
  ℕ, ◌+◌, ◌-◌, ◌*◌, ◌/◌, ◌%◌, Option, none, some, [], ◌∷◌, ◌++◌, ℤ, pos, negsuc,
}
use event_observability_plat.Errors.{Err, wrapped}
use event_observability_plat.Domain.{Event, status_text}
use event_observability_plat.Runtime.{Machine, M, ◌>>=◌, pure, call, now, LogRow}

abbrev pub day : ℕ
day = 86400000000000

-- `Truncate(24 * time.Hour)`: down to the midnight before, in UTC.
unfoldable pub truncate_day : ℤ → ℤ
truncate_day (pos n) = pos (n - n % day)
truncate_day (negsuc n) = negsuc ((n / day + 1) * day - 1)

unfoldable pub log_row : Event → ℤ → LogRow
log_row e at = record {
  event_id = e.id;
  source = e.source;
  event_type = e.event_type;
  status = status_text e.status;
  processed_at = at;
  date = truncate_day at;
}

-- `*event.ProcessedAt` where it is set, and else the reading of the clock.
abbrev pub written_at : Option ℤ → ℤ → ℤ
written_at none t = t
written_at (some at) t = at

unfoldable pub send_answer : LogRow → Option Err → M (Option Err)
send_answer row (some x) w = (some (wrapped "analytics send batch" x), w)
send_answer row none w = (none, record w { log = w.log ++ row ∷ [] })

unfoldable pub append_answer : Machine → LogRow → Option Err → M (Option Err)
append_answer m row (some x) = pure (some (wrapped "analytics append row" x))
append_answer m row none = do fault ← call m; send_answer row fault

unfoldable pub batch_answer : Machine → LogRow → Option Err → M (Option Err)
batch_answer m row (some x) = pure (some (wrapped "analytics prepare batch" x))
batch_answer m row none = do fault ← call m; append_answer m row fault

-- `WriteEvent`: a batch of one row, which reaches the table when it is sent.
unfoldable pub write_event : Machine → Event → M (Option Err)
write_event m e = do
  t ← now m
  fault ← call m
  batch_answer m (log_row e (written_at e.processed_at t)) fault
