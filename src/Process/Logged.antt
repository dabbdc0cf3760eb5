-- ===== src/Process/Logged.antt =====
-- What the use case writes into events_log, whatever fails.
use event_observability_plat.Common.{
  ◌≡◌, ◌≢◌, ◌⊎◌, inl, inr, refl, arith, String, true, Option, none, some, List, [], ◌∷◌, ◌++◌, ℤ,
  All, ◌||◌, str_eq_iff,
}
use event_observability_plat.Errors.{Err, Result, ok, err}
use event_observability_plat.Domain.{
  EventStatus, pending, processing, processed, failed, Event, EventMessage, status_text,
  is_processed, is_failed,
}
use event_observability_plat.Runtime.{World, Machine, M, LogRow, call, now}
use event_observability_plat.Runtime.Keeps.{Keeps, Keeps-pure, keeps_rules}
use event_observability_plat.Storage.Events.{
  find_by_id, find_answer, update_status, update_answer, processed_time, increment_retry,
}
use event_observability_plat.Storage.Analytics.{
  write_event, batch_answer, append_answer, send_answer, log_row,
}
use event_observability_plat.Process.{
  ProcessEvent, handle_failure, write_analytics, after_mark, after_find, execute,
}

-- The row does not say "processed".
abbrev pub IsUnfinished : LogRow → Type 0
IsUnfinished r = r.status ≢ "processed"

pub record HasUnfinishedLog (w : World) : Type 0 where
  pub rows : All IsUnfinished w.log

All-append :
    (rows : List LogRow) (r : LogRow)
    → All IsUnfinished rows
    → IsUnfinished r
    → All IsUnfinished (rows ++ r ∷ [])
All-append [] r h u = (u, tt)
All-append (x ∷ rows) r h u = (h.0, All-append rows r h.1 u)

-- An action that leaves events_log alone.
pub Keeps-log :
    {A : Type 0} (a : M A) → ((w : World) → (a w).1.log ≡ w.log) → Keeps HasUnfinishedLog a
Keeps-log a same = record { at = λ w h. record { rows = rw (same w) h.rows } }

module _ (m : Machine) where
  pub find-log : (id : String) → Keeps HasUnfinishedLog (find_by_id m id)
  unfolding find_by_id find_answer call
  find-log id = Keeps-log (find_by_id m id) (λ w. ground arith)

  pub update-log : (id : String) (s : EventStatus) → Keeps HasUnfinishedLog (update_status m id s)
  unfolding update_status update_answer processed_time call now
  update-log id s = Keeps-log (update_status m id s) (λ w. ground arith)

  pub increment-log : (id : String) → Keeps HasUnfinishedLog (increment_retry m id)
  unfolding increment_retry update_answer call
  increment-log id = Keeps-log (increment_retry m id) (λ w. ground arith)

text_unfinished : (s : EventStatus) → s ≢ processed → status_text s ≢ "processed"
unfolding status_text
text_unfinished pending h e = ground (arith, str_eq_iff "pending" "processed")
text_unfinished processing h e = ground (arith, str_eq_iff "processing" "processed")
text_unfinished processed h e = absurd (h refl)
text_unfinished failed h e = ground (arith, str_eq_iff "failed" "processed")

waiting-IsUnfinished : (e : Event) (at : ℤ) → e.status ≢ processed → IsUnfinished (log_row e at)
unfolding log_row
waiting-IsUnfinished e at h = text_unfinished e.status h

send-log :
    (row : LogRow)
    → IsUnfinished row
    → (fault : Option Err) → Keeps HasUnfinishedLog (send_answer row fault)
unfolding send_answer
send-log row u (some x) = record { at = λ w h. h }
send-log row u none = record { at = λ w h. record { rows = All-append w.log row h.rows u } }

module _ (m : Machine) where
  call-log : Keeps HasUnfinishedLog (call m)
  unfolding call
  call-log = Keeps-log (call m) (λ w. refl)

  now-log : Keeps HasUnfinishedLog (now m)
  unfolding now
  now-log = Keeps-log (now m) (λ w. refl)

  append-log :
      (row : LogRow)
      → IsUnfinished row
      → (fault : Option Err) → Keeps HasUnfinishedLog (append_answer m row fault)
  unfolding append_answer
  append-log row u (some x) = search keeps_rules
  append-log row u none = search (keeps_rules, call-log, send-log)

  batch-log :
      (row : LogRow)
      → IsUnfinished row
      → (fault : Option Err) → Keeps HasUnfinishedLog (batch_answer m row fault)
  unfolding batch_answer
  batch-log row u (some x) = search keeps_rules
  batch-log row u none = search (keeps_rules, call-log, append-log)

  write-log : (e : Event) → e.status ≢ processed → Keeps HasUnfinishedLog (write_event m e)
  unfolding write_event
  write-log e h = search (keeps_rules, call-log, now-log, batch-log, waiting-IsUnfinished)

module _ (m : Machine) (uc : ProcessEvent) (msg : EventMessage) where
  failure-log : (cause : Err) → Keeps HasUnfinishedLog (handle_failure m uc msg cause)
  unfolding handle_failure
  failure-log cause = search (keeps_rules, increment-log, update-log)

  analytics-log :
      (e : Event) → e.status ≢ processed → Keeps HasUnfinishedLog (write_analytics m uc e)
  unfolding write_analytics
  analytics-log e h = search (keeps_rules, write-log)

  mark-log :
      (e : Event)
      → e.status ≢ processed
      → (fault : Option Err) → Keeps HasUnfinishedLog (after_mark m uc msg e fault)
  unfolding after_mark
  mark-log e h (some cause) = failure-log cause
  mark-log e h none = search (keeps_rules, analytics-log, update-log)

  settled-log :
      (e : Event) → (is_processed e.status || is_failed e.status ≡ true) ⊎ (e.status ≢ processed)
  settled-log e = ground arith

  find-then-log : (found : Result Event) → Keeps HasUnfinishedLog (after_find m uc msg found)
  unfolding after_find
  find-then-log (err cause) = search (keeps_rules, failure-log)
  find-then-log (ok e) = elim (settled-log e) [
    | inl settled ↦ rw settled (Keeps-pure HasUnfinishedLog _)
    | inr waiting ↦ search (keeps_rules, update-log, mark-log)
  ]

  -- Whatever fails, a message adds no row to events_log whose status is "processed": where no row of
  -- the table said so before, none does afterwards.
  pub execute-HasUnfinishedLog : Keeps HasUnfinishedLog (execute m uc msg)
  unfolding execute
  execute-HasUnfinishedLog = search (keeps_rules, find-log, find-then-log)
