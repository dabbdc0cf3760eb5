-- ===== src/Process/Settled.antt =====
-- Messages about events that need no more work, finished work that is undone, and work whose end is lost.
use event_observability_plat.Common.{◌+◌, ◌≡◌, ◌⊎◌, refl, arith, String, none, some, ◌≤ℤ◌}
use event_observability_plat.Errors.{is_not_found}
use event_observability_plat.Domain.{pending, processing, processed, failed, Event, EventMessage}
use event_observability_plat.Runtime.{World, Machine, call, now}
use event_observability_plat.Storage.Analytics.{
  write_event, batch_answer, append_answer, send_answer,
}
use event_observability_plat.Storage.Events.{
  find_row, update_rows, with_status, with_retry, find_by_id, find_answer,
}
use event_observability_plat.Storage.Events.Rows.{find_row-update_self, find_row-id}
use event_observability_plat.Storage.Events.Statements.{
  find-stored, mark_failed, mark_processing, lose_processed, count_retry,
}
use event_observability_plat.Process.{
  ProcessEvent, verdict, done, dlq, handle_failure, write_analytics, after_mark, after_find,
  execute,
}

-- A message about an event that is processed or failed, or that is not stored, is done with at once:
-- where the lookup succeeds, nothing is written, counted or queued.
pub settled_is_done :
    (m : Machine) (uc : ProcessEvent) (msg : EventMessage) (w : World)
    → m.fault w.tick ≡ none
    → ((find_row msg.event_id w.events ≡ none)
        ⊎ ((e : Event) × (find_row msg.event_id w.events ≡ some e)
            × ((e.status ≡ processed) ⊎ (e.status ≡ failed))))
    → execute m uc msg w ≡ (verdict done "" none, record w { tick = w.tick + 1 })
unfolding execute after_find find_by_id find_answer call is_not_found
settled_is_done m uc msg w quiet h = ground arith

-- An event that is already processed loses that status when the lookup of one more message about it fails on
-- the last attempt and the statements after it succeed: the event is marked failed, its processing
-- time is erased, and the message goes to the dead letter queue.
pub processed_is_overwritten :
    (m : Machine) (uc : ProcessEvent) (msg : EventMessage) (w : World) (e : Event) (why : String)
    → find_row msg.event_id w.events ≡ some e
    → e.status ≡ processed
    → m.fault w.tick ≡ some why
    → m.fault (w.tick + 1) ≡ none
    → m.fault (w.tick + 1 + 1) ≡ none
    → uc.max_retries ≤ℤ msg.attempt
    → ((execute m uc msg w).0.action ≡ dlq)
      × (find_row msg.event_id (execute m uc msg w).1.events
          ≡ some
              (record e { status = failed; processed_at = none; retry_count = e.retry_count + 1 }))
unfolding execute after_find handle_failure find_by_id find_answer call is_not_found
processed_is_overwritten m uc msg w e why stored finished f q q' last =
    let w₁ : World = record w { tick = w.tick + 1 } in
    let w₂ : World = record w₁ {
      tick = w₁.tick + 1;
      events = update_rows msg.event_id with_retry w.events;
    } in
    let stored' = find_row-update_self msg.event_id with_retry (λ r. refl) w.events e stored in
    ground (
      arith,
      count_retry m w₁ msg.event_id e stored q,
      mark_failed m w₂ msg.event_id (with_retry e) stored' q',
      find_row-update_self msg.event_id (with_status failed none) (λ r. refl) w₂.events
          (with_retry e) stored',
    )

-- The analytics write leaves the events and the queue alone, whatever fails.
write_analytics-kept :
    (m : Machine) (uc : ProcessEvent) (e : Event) (w : World)
    → ((write_analytics m uc e w).1.events ≡ w.events)
      × ((write_analytics m uc e w).1.sent ≡ w.sent)
unfolding write_analytics write_event batch_answer append_answer send_answer call now
write_analytics-kept m uc e w = (ground arith, ground arith)

-- The world once the event has been found and marked as being processed.
abbrev pub marked : EventMessage → World → World
marked msg w = record w {
  tick = w.tick + 1 + 1;
  events = update_rows msg.event_id (with_status processing none) w.events;
}

-- A message about an event that waits for its work is done with, without an error, even where the last statement
-- fails, the one that records the success: the event stays in processing, and nothing is queued that
-- would take it up again. The lookup and the first update succeed; there may be an analytics writer or not, and its
-- write may succeed or fail.
pub lost_success_is_done :
    (m : Machine) (uc : ProcessEvent) (msg : EventMessage) (w : World) (e : Event) (why : String)
    → find_row msg.event_id w.events ≡ some e
    → (e.status ≡ pending) ⊎ (e.status ≡ processing)
    → m.fault w.tick ≡ none
    → m.fault (w.tick + 1) ≡ none
    → m.fault ((write_analytics m uc e (marked msg w)).1.tick + 1) ≡ some why
    → ((execute m uc msg w).0 ≡ verdict done e.source none)
      × (find_row msg.event_id (execute m uc msg w).1.events ≡ some (with_status processing none e))
      × ((execute m uc msg w).1.sent ≡ w.sent)
unfolding execute after_find after_mark
lost_success_is_done m uc msg w e why stored waits f q broken =
    let w₁ : World = record w { tick = w.tick + 1 } in
    let same : e.id ≡ msg.event_id = find_row-id msg.event_id w.events e stored in
    let kept =
      find_row-update_self msg.event_id (with_status processing none) (λ r. refl) w.events e
        stored in
    let written = (write_analytics m uc e (marked msg w)).1 in
    ground (
      arith,
      find-stored m w msg.event_id e stored f,
      mark_processing m w₁ msg.event_id e stored q,
      lose_processed m written msg.event_id why broken,
      write_analytics-kept m uc e (marked msg w),
      kept,
      same,
    )
