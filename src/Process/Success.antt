-- ===== src/Process/Success.antt =====
-- One message of an event that waits for its work, where no call fails.
use event_observability_plat.Common.{
  ℕ, ◌+◌, ◌≡◌, ◌⊎◌, refl, ◌∙◌, arith, String, str_eq, true, false, none, some, [], ◌∷◌, ◌++◌, ℤ,
}
use event_observability_plat.Domain.{
  EventStatus, pending, processing, processed, Event, EventMessage,
}
use event_observability_plat.Runtime.{World, Machine, call, now}
use event_observability_plat.Storage.Events.{find_row, update_rows, with_status}
use event_observability_plat.Storage.Events.Rows.{
  find_row-update_self, find_row-update_ne, find_row-id,
}
use event_observability_plat.Storage.Events.Statements.{
  find-stored, mark_processing, mark_processed,
}
use event_observability_plat.Storage.Analytics.{
  write_event, batch_answer, append_answer, send_answer, log_row, written_at,
}
use event_observability_plat.Process.{
  ProcessEvent, verdict, done, write_analytics, after_mark, after_find, execute,
}

module _ (m : Machine) (quiet : (k : ℕ) → m.fault k ≡ none) where
  write_quiet :
      (e : Event) (w : World)
      → write_event m e w ≡ (
        none,
        record w {
          tick = w.tick + 1 + 1 + 1 + 1;
          log = w.log ++ log_row e (written_at e.processed_at (m.clock w.tick)) ∷ [];
        },
      )
  unfolding write_event batch_answer append_answer send_answer call now
  write_quiet e w =
      ground (arith, quiet (w.tick + 1), quiet (w.tick + 1 + 1), quiet (w.tick + 1 + 1 + 1))

-- An event that waits for its work.
abbrev pub IsWaiting : EventStatus → Type 0
IsWaiting s = (s ≡ pending) ⊎ (s ≡ processing)

module _ (m : Machine) (quiet : (k : ℕ) → m.fault k ≡ none) (uc : ProcessEvent) (msg : EventMessage)
    (w : World) (e : Event) (stored : find_row msg.event_id w.events ≡ some e)
    (waiting : IsWaiting e.status) (writer : uc.analytics ≡ true) where
  same_id : e.id ≡ msg.event_id
  same_id = find_row-id msg.event_id w.events e stored

  -- The worlds after the lookup, after the first update, after the write to ClickHouse, and at the end.
  abbrev found : World
  found = record w { tick = w.tick + 1 }

  abbrev marked : World
  marked = record found {
    tick = found.tick + 1;
    events = update_rows msg.event_id (with_status processing none) w.events;
  }

  abbrev logged : World
  logged = record marked {
    tick = marked.tick + 1 + 1 + 1 + 1;
    log = w.log ++ log_row e (written_at e.processed_at (m.clock marked.tick)) ∷ [];
  }

  abbrev ended : World
  ended = record logged {
    tick = logged.tick + 1 + 1;
    events =
        update_rows msg.event_id (with_status processed (some (m.clock logged.tick))) marked.events;
  }

  stored_marked : find_row msg.event_id marked.events ≡ some (with_status processing none e)
  stored_marked =
      find_row-update_self msg.event_id (with_status processing none) (λ r. refl) w.events e stored

  stored_ended :
      find_row msg.event_id ended.events
      ≡ some (with_status processed (some (m.clock logged.tick)) e)
  stored_ended =
      find_row-update_self msg.event_id (with_status processed (some (m.clock logged.tick)))
        (λ r. refl) marked.events (with_status processing none e) stored_marked

  others_kept :
      (other : String)
      → str_eq msg.event_id other ≡ false
      → find_row other ended.events ≡ find_row other w.events
  others_kept other ne =
      find_row-update_ne msg.event_id (with_status processed (some (m.clock logged.tick)))
        (λ r. refl) other marked.events ne
      ∙ find_row-update_ne msg.event_id (with_status processing none) (λ r. refl) other w.events ne

  after_mark_quiet : after_mark m uc msg e none marked ≡ (verdict done e.source none, ended)
  unfolding after_mark write_analytics
  after_mark_quiet = ground (
    arith,
    same_id,
    writer,
    write_quiet m quiet e marked,
    mark_processed m logged msg.event_id (with_status processing none e) stored_marked
        (quiet (logged.tick + 1)),
  )

  execute_ends : execute m uc msg w ≡ (verdict done e.source none, ended)
  unfolding execute after_find
  execute_ends = ground (
    arith,
    same_id,
    find-stored m w msg.event_id e stored (quiet w.tick),
    mark_processing m found msg.event_id e stored (quiet found.tick),
    after_mark_quiet,
  )

  -- Where no call fails and there is an analytics writer, a message about a pending or processing event is done
  -- with: the event becomes processed and gets a processing time, its other fields and all other events stay,
  -- one row about it goes into events_log, and nothing is queued or counted.
  pub execute_processes :
      ((execute m uc msg w).0 ≡ verdict done e.source none)
      × ((at : ℤ) × (find_row msg.event_id (execute m uc msg w).1.events
            ≡ some (with_status processed (some at) e)))
      × ((other : String)
          → str_eq msg.event_id other ≡ false
          → find_row other (execute m uc msg w).1.events ≡ find_row other w.events)
      × ((at : ℤ) × ((execute m uc msg w).1.log ≡ w.log ++ log_row e at ∷ []))
      × ((execute m uc msg w).1.sent ≡ w.sent)
      × ((execute m uc msg w).1.counts ≡ w.counts)
  execute_processes = rw execute_ends (
    refl,
    (m.clock logged.tick, stored_ended),
    others_kept,
    (written_at e.processed_at (m.clock marked.tick), refl),
    refl,
    refl,
  )
