-- ===== src/Storage/Events/Statements.antt =====
-- The statements of the event repository where no call fails and the row is there.
use event_observability_plat.Common.{◌+◌, ◌≡◌, arith, String, none, some}
use event_observability_plat.Errors.{external, wrapped, ok}
use event_observability_plat.Domain.{processing, processed, failed, Event}
use event_observability_plat.Runtime.{World, Machine, call, now}
use event_observability_plat.Storage.Events.{
  find_row, update_rows, with_status, with_retry, find_by_id, update_status, increment_retry,
  update_answer, find_answer, processed_time,
}
use event_observability_plat.Storage.Events.Rows.{rows_affected-find}

module _ (m : Machine) (w : World) (id : String) (e : Event)
    (stored : find_row id w.events ≡ some e) where
  pub find-stored :
      m.fault w.tick ≡ none → find_by_id m id w ≡ (ok e, record w { tick = w.tick + 1 })
  unfolding find_by_id find_answer call
  find-stored quiet = ground arith

  pub mark_processing :
      m.fault w.tick ≡ none
      → update_status m id processing w ≡ (
        none,
        record w {
          tick = w.tick + 1;
          events = update_rows id (with_status processing none) w.events;
        },
      )
  unfolding update_status update_answer processed_time call
  mark_processing quiet = ground (arith, rows_affected-find id w.events e stored)

  pub mark_failed :
      m.fault w.tick ≡ none
      → update_status m id failed w ≡ (
        none,
        record w { tick = w.tick + 1; events = update_rows id (with_status failed none) w.events },
      )
  unfolding update_status update_answer processed_time call
  mark_failed quiet = ground (arith, rows_affected-find id w.events e stored)

  pub mark_processed :
      m.fault (w.tick + 1) ≡ none
      → update_status m id processed w ≡ (
        none,
        record w {
          tick = w.tick + 1 + 1;
          events = update_rows id (with_status processed (some (m.clock w.tick))) w.events;
        },
      )
  unfolding update_status update_answer processed_time call now
  mark_processed quiet = ground (arith, rows_affected-find id w.events e stored)

  pub count_retry :
      m.fault w.tick ≡ none
      → increment_retry m id w
        ≡ (none, record w { tick = w.tick + 1; events = update_rows id with_retry w.events })
  unfolding increment_retry update_answer call
  count_retry quiet = ground (arith, rows_affected-find id w.events e stored)

-- A failed update of a row to `processed` changes nothing.
pub lose_processed :
    (m : Machine) (w : World) (id why : String)
    → m.fault (w.tick + 1) ≡ some why
    → update_status m id processed w
      ≡ (some (wrapped "update event status" (external why)), record w { tick = w.tick + 1 + 1 })
unfolding update_status update_answer processed_time call now
lose_processed m w id why broken = ground arith
