-- ===== src/Worker/Lag.antt =====
-- `reportLag` of internal/app/processor/processor.go: what the gauge of the events topic is set to.
use event_observability_plat.Common.{String, List, [], ◌∷◌, ℤ}
use event_observability_plat.Worker.{Topics}

-- What the loop waits for: a tick, with the lag that the reader then reports, or the end of the context.
pub data Wait : Type 0 where
  ticked : ℤ → Wait
  ended : Wait

-- The settings of the gauge, by its label, before the conversion to a float64.
unfoldable pub report_lag : Topics → List Wait → List (String × ℤ)
report_lag topics [] = []
report_lag topics (ended ∷ rest) = []
report_lag topics (ticked lag ∷ rest) = (topics.events, lag) ∷ report_lag topics rest
