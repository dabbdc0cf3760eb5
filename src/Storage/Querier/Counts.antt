-- ===== src/Storage/Querier/Counts.antt =====
-- The answer of the querier counts what was inserted.
use event_observability_plat.Common.{
  ℕ, ◌+◌, String, true, str_eq_iff, Bool-cases, inl, inr, none, List, [], ◌∷◌, ◌++◌, ◌≡◌, ap, ◌∙◌,
  arith, if◌then◌else◌, ℤ, eq_of_parts,
}
use mathlib.Core.List.{append-nil, append_assoc}
use event_observability_plat.Errors.{ok}
use event_observability_plat.Domain.{DailyEventStat}
use event_observability_plat.Runtime.{World, Machine, call, tick, LogRow}
use event_observability_plat.Storage.Querier.{
  in_group, in_range, add_row, select_stats, scan_stats, stats_answer, daily_events,
}

-- How many events the rows of an answer count for a group, and how many rows of events_log are in it.
unfoldable pub counted : ℤ → String → String → List DailyEventStat → ℕ
counted d s t [] = 0
counted d s t (g ∷ stats) =
    (if in_group d s t g.date g.source g.event_type then g.event_count else 0) + counted d s t stats

unfoldable pub inserted : ℤ → String → String → List LogRow → ℕ
inserted d s t [] = 0
inserted d s t (r ∷ log) =
    (if in_group d s t r.date r.source r.event_type then 1 else 0) + inserted d s t log

group_same :
    (d d' : ℤ) (s t s' t' : String)
    → in_group d s t d' s' t' ≡ true
    → (d ≡ d') × (s ≡ s') × (t ≡ t')
unfolding in_group
group_same d d' s t s' t' h = ground (arith, eq_of_parts d d', str_eq_iff s s', str_eq_iff t t')

counted-add_row :
    (d : ℤ) (s t : String) (r : LogRow) (stats : List DailyEventStat)
    → counted d s t (add_row r stats)
      ≡ (if in_group d s t r.date r.source r.event_type then 1 else 0) + counted d s t stats
unfolding counted add_row
counted-add_row d s t r [] = ground arith
counted-add_row d s t r (g ∷ stats) =
    elim (Bool-cases (in_group r.date r.source r.event_type g.date g.source g.event_type)) [
      | inl e ↦
          let same = group_same r.date g.date r.source r.event_type g.source g.event_type e in
          let group : in_group d s t r.date r.source r.event_type
              ≡ in_group d s t g.date g.source g.event_type =
            ap (λ x. in_group d s t x r.source r.event_type) same.0
            ∙ (ap (λ x. in_group d s t g.date x r.event_type) same.1
                ∙ ap (λ x. in_group d s t g.date g.source x) same.2) in
          ground (arith, e, group)
      | inr e ↦ ground (arith, e, counted-add_row d s t r stats)
    ]

counted-select :
    (d from to : ℤ) (s t : String) (log : List LogRow)
    → counted d s t (select_stats from to log)
      ≡ (if in_range from to d then inserted d s t log else 0)
unfolding counted select_stats inserted
counted-select d from to s t [] = ground arith
counted-select d from to s t (r ∷ log) =
    elim (Bool-cases (in_group d s t r.date r.source r.event_type)) [
      | inl e ↦
          let range : in_range from to d ≡ in_range from to r.date =
            ap (in_range from to) (group_same d r.date s t r.source r.event_type e).0 in
          ground (
            arith,
            e,
            range,
            counted-select d from to s t log,
            counted-add_row d s t r (select_stats from to log),
          )
      | inr e ↦ ground (
        arith,
        e,
        counted-select d from to s t log,
        counted-add_row d s t r (select_stats from to log),
      )
    ]

scan_quiet :
    (m : Machine) (acc stats : List DailyEventStat) (w : World)
    → ((k : ℕ) → m.fault k ≡ none)
    → (scan_stats m acc stats w).0 ≡ ok (acc ++ stats)
unfolding scan_stats call
scan_quiet m acc [] w quiet = ground (arith, quiet w.tick, append-nil acc)
scan_quiet m acc (g ∷ stats) w quiet = ground (
  arith,
  quiet w.tick,
  scan_quiet m (acc ++ g ∷ []) stats (tick w) quiet,
  append_assoc acc (g ∷ []) stats,
)

-- Where no call fails, the answer for the days `from` to `to` counts for each day, source and type as many events as
-- rows of that day, source and type were inserted into events_log, where the day is one of these, and else none.
pub daily_events_counts :
    (m : Machine) (from to : ℤ) (w : World)
    → ((k : ℕ) → m.fault k ≡ none)
    → (stats : List DailyEventStat) × ((daily_events m from to w).0 ≡ ok stats)
      × ((d : ℤ) (s t : String)
          → counted d s t stats ≡ (if in_range from to d then inserted d s t w.log else 0))
unfolding daily_events stats_answer call
daily_events_counts m from to w quiet = (
  select_stats from to w.log,
  ground (arith, quiet w.tick, scan_quiet m [] (select_stats from to w.log) (tick w) quiet),
  λ d s t. counted-select d from to s t w.log,
)
