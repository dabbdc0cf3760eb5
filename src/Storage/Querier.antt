-- ===== src/Storage/Querier.antt =====
-- internal/infra/storage/clickhouse/event_querier.go over the view daily_event_stats.
-- The view counts every row that was ever inserted into events_log; merging is left to `sum`.
pub mod Counts
use Prim.Native.String.{compare}
use Prim.Native.Nat.{Ordering}
use event_observability_plat.Common.{
  ℕ, zero, suc, ◌+◌, String, Bool, true, false, ◌&&◌, ◌||◌, str_eq, str_eq_iff, Option, none, some,
  List, [], ◌∷◌, ◌++◌, ◌≡◌, refl, arith, if◌then◌else◌, ℤ, leb_ℤ, ltb_ℤ, eq_of_parts, ◌≤ℤ◌,
}
use event_observability_plat.Errors.{Err, wrapped, Result, ok, err}
use event_observability_plat.Domain.{DailyEventStat}
use event_observability_plat.Runtime.{World, Machine, M, ◌>>=◌, ◌>>◌, pure, call, LogRow}

abbrev pub same_day : ℤ → ℤ → Bool
same_day a b = leb_ℤ a b && leb_ℤ b a

-- GROUP BY date, source, event_type
unfoldable pub in_group : ℤ → String → String → ℤ → String → String → Bool
in_group d s t d' s' t' = same_day d d' && str_eq s s' && str_eq t t'

abbrev pub text_before : String → String → Bool
text_before s t = elim (compare s t) [ Ordering.lt ↦ true | _ ↦ false ]

-- ORDER BY date ASC, source ASC, event_type ASC
unfoldable pub before : LogRow → DailyEventStat → Bool
before r g =
    ltb_ℤ r.date g.date
    || (same_day r.date g.date
        && (text_before r.source g.source
            || (str_eq r.source g.source && text_before r.event_type g.event_type)))

abbrev pub first_of : LogRow → DailyEventStat
first_of r = record { date = r.date; source = r.source; event_type = r.event_type; event_count = 1 }

-- One more row in its group, or in a new group at its place.
unfoldable pub add_row : LogRow → List DailyEventStat → List DailyEventStat
add_row r [] = first_of r ∷ []
add_row r (g ∷ stats) =
    let rest = add_row r stats in
    if in_group r.date r.source r.event_type g.date g.source g.event_type
    then record g { event_count = g.event_count + 1 } ∷ stats
    else if before r g
    then first_of r ∷ g ∷ stats
    else g ∷ rest

-- WHERE date >= from AND date <= to
unfoldable pub in_range : ℤ → ℤ → ℤ → Bool
in_range from to d = leb_ℤ from d && leb_ℤ d to

unfoldable pub select_stats : ℤ → ℤ → List LogRow → List DailyEventStat
select_stats from to [] = []
select_stats from to (r ∷ log) =
    let rest = select_stats from to log in if in_range from to r.date then add_row r rest else rest

-- The loop over `rows.Next()`, in which each `Scan`, and `rows.Err()` behind it, may fail.
unfoldable pub scan_stats :
    Machine → List DailyEventStat → List DailyEventStat → M (Result (List DailyEventStat))
scan_stats m acc [] w =
    let (fault, w') = call m w in
    (elim fault [ none ↦ ok acc | some x ↦ err (wrapped "iterate daily events" x) ], w')
scan_stats m acc (g ∷ stats) w =
    let (fault, w') = call m w in
    let rest = scan_stats m (acc ++ g ∷ []) stats w' in
    elim fault [ none ↦ rest | some x ↦ (err (wrapped "scan daily event stat" x), w') ]

unfoldable pub stats_answer : Machine → ℤ → ℤ → Option Err → M (Result (List DailyEventStat))
stats_answer m from to (some x) w = (err (wrapped "daily events query" x), w)
stats_answer m from to none w = scan_stats m [] (select_stats from to w.log) w

-- `DailyEvents`
unfoldable pub daily_events : Machine → ℤ → ℤ → M (Result (List DailyEventStat))
daily_events m from to = do fault ← call m; stats_answer m from to fault
