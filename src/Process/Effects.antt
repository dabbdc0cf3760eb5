-- ===== src/Process/Effects.antt =====
-- The use case of the worker keeps the tables well formed.
use event_observability_plat.Common.{Option, none, some}
use event_observability_plat.Errors.{Err, Result, ok, err}
use event_observability_plat.Domain.{Event, EventMessage}
use event_observability_plat.Runtime.{Machine, LogRow}
use event_observability_plat.Runtime.Keeps.{Keeps, keeps_rules}
use event_observability_plat.Storage.Events.Invariant.{
  IsWellFormed, call-IsWellFormed, now-IsWellFormed, find-Keeps, update_status-Keeps,
  increment_retry-Keeps,
}
use event_observability_plat.Storage.Analytics.{
  send_answer, append_answer, batch_answer, write_event,
}
use event_observability_plat.Process.{
  ProcessEvent, handle_failure, write_analytics, after_mark, after_find, execute,
}

send-Keeps : (row : LogRow) (fault : Option Err) → Keeps IsWellFormed (send_answer row fault)
unfolding send_answer
send-Keeps row (some x) = record { at = λ w h. h }
send-Keeps row none = record {
  at = λ w h. record { stamped = h.stamped; distinct = h.distinct; refers = h.refers };
}

module _ (m : Machine) where
  append-Keeps :
      (row : LogRow) (fault : Option Err) → Keeps IsWellFormed (append_answer m row fault)
  unfolding append_answer
  append-Keeps row (some x) = search keeps_rules
  append-Keeps row none = search (keeps_rules, call-IsWellFormed, send-Keeps)

  batch-Keeps : (row : LogRow) (fault : Option Err) → Keeps IsWellFormed (batch_answer m row fault)
  unfolding batch_answer
  batch-Keeps row (some x) = search keeps_rules
  batch-Keeps row none = search (keeps_rules, call-IsWellFormed, append-Keeps)

  pub write_event-Keeps : (e : Event) → Keeps IsWellFormed (write_event m e)
  unfolding write_event
  write_event-Keeps e = search (keeps_rules, call-IsWellFormed, now-IsWellFormed, batch-Keeps)

module _ (m : Machine) (uc : ProcessEvent) where
  handle_failure-Keeps :
      (msg : EventMessage) (cause : Err) → Keeps IsWellFormed (handle_failure m uc msg cause)
  unfolding handle_failure
  handle_failure-Keeps msg cause = search (keeps_rules, increment_retry-Keeps, update_status-Keeps)

  write_analytics-Keeps : (e : Event) → Keeps IsWellFormed (write_analytics m uc e)
  unfolding write_analytics
  write_analytics-Keeps e = search (keeps_rules, write_event-Keeps)

  after_mark-Keeps :
      (msg : EventMessage) (e : Event) (fault : Option Err)
      → Keeps IsWellFormed (after_mark m uc msg e fault)
  unfolding after_mark
  after_mark-Keeps msg e (some cause) = handle_failure-Keeps msg cause
  after_mark-Keeps msg e none = search (keeps_rules, write_analytics-Keeps, update_status-Keeps)

  after_find-Keeps :
      (msg : EventMessage) (found : Result Event) → Keeps IsWellFormed (after_find m uc msg found)
  unfolding after_find
  after_find-Keeps msg (err cause) = search (keeps_rules, handle_failure-Keeps)
  after_find-Keeps msg (ok e) = search (keeps_rules, update_status-Keeps, after_mark-Keeps)

  pub execute-Keeps : (msg : EventMessage) → Keeps IsWellFormed (execute m uc msg)
  unfolding execute
  execute-Keeps msg = search (keeps_rules, find-Keeps, after_find-Keeps)
