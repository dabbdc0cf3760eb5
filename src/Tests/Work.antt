-- ===== src/Tests/Work.antt =====
-- The use cases, the worker and the stores at concrete inputs.
use event_observability_plat.Config.{natural, digits, atoi}
use event_observability_plat.Errors.{ok, is_not_found}
use event_observability_plat.Tests.Machines.{
  first_text, machine, sound, fails_at, worker, topics, stale,
}
use event_observability_plat.Mapper.{unmarshal_event_message, encode}
use event_observability_plat.Ingest.Success.{message_of}
use event_observability_plat.Json.Fields.{set_all, members}
use event_observability_plat.Json.Text.{of_code, unquote}
use event_observability_plat.Json.Tokens.{tokens}
use event_observability_plat.Json.{before}
use event_observability_plat.Common.{
  ℕ, ◌≡◌, ◌≢◌, inl, inr, refl, arith, String, false, str_eq, none, some, [], ◌∷◌, ◌++◌, ℤ, pos, ◌+◌,
}
use event_observability_plat.Domain.{
  processing, pending, processed, failed, Event, EventMessage, Entry,
}
use event_observability_plat.Runtime.{World, Machine, call, now}
use event_observability_plat.Runtime.Keeps.{Keeps}
use event_observability_plat.Storage.Events.{
  find_row, with_status, find_by_id, find_answer, increment_retry, update_status, update_answer,
  rows_affected,
}
use event_observability_plat.Storage.Analytics.{
  log_row, write_event, batch_answer, append_answer, send_answer,
}
use event_observability_plat.Storage.Idempotency.{find_key}
use event_observability_plat.Ingest.{IngestEventInput}
use event_observability_plat.Process.{
  verdict, done, retry, dlq, execute, after_find, handle_failure, write_analytics,
}
use event_observability_plat.Process.Success.{execute_processes}
use event_observability_plat.Process.Verdicts.{IsDecided, execute-IsDecided}
use event_observability_plat.Process.Settled.{
  settled_is_done, processed_is_overwritten, lost_success_is_done, marked,
}
use event_observability_plat.Process.Logged.{HasUnfinishedLog, execute-HasUnfinishedLog}
use event_observability_plat.Worker.{Delivery, fetched, run_processor, process_message}
use event_observability_plat.Worker.Retries.{retry_of, retry_is_committed}
use event_observability_plat.System.{empty}

-- Events of each kind.
abbrev waiting_event : Event
waiting_event = record {
  id = "id-1";
  idempotency_key = "k";
  source = "shop";
  event_type = "sale";
  payload = "{}";
  status = pending;
  retry_count = 0;
  created_at = pos 50;
  processed_at = none;
}

abbrev finished_event : Event
finished_event = record waiting_event { status = processed; processed_at = some (pos 60) }

abbrev msg : ℕ → EventMessage
msg attempt = record { event_id = "id-1"; attempt = pos attempt }

abbrev waits : World
waits = record empty { events = waiting_event ∷ [] }

abbrev finished : World
finished = record empty { events = finished_event ∷ [] }

execute_processes_example :
    ((execute sound worker (msg 1) waits).0 ≡ verdict done "shop" none)
    × ((at : ℤ) × (find_row "id-1" (execute sound worker (msg 1) waits).1.events
          ≡ some (with_status processed (some at) waiting_event)))
    × ((other : String)
        → str_eq "id-1" other ≡ false
        → find_row other (execute sound worker (msg 1) waits).1.events
          ≡ find_row other waits.events)
    × ((at : ℤ) × ((execute sound worker (msg 1) waits).1.log
          ≡ [] ++ log_row waiting_event at ∷ []))
    × ((execute sound worker (msg 1) waits).1.sent ≡ [])
    × ((execute sound worker (msg 1) waits).1.counts ≡ [])
execute_processes_example =
    execute_processes sound (λ k. refl) worker (msg 1) waits waiting_event (unfold find_row in refl)
      (inl refl) refl

execute-IsDecided_example : IsDecided (pos 3) (pos 3) (execute (fails_at 0) worker (msg 3) waits).0
execute-IsDecided_example = execute-IsDecided (fails_at 0) worker (msg 3) waits

execute-HasUnfinishedLog_example : Keeps HasUnfinishedLog (execute (fails_at 3) worker (msg 1))
execute-HasUnfinishedLog_example = execute-HasUnfinishedLog (fails_at 3) worker (msg 1)

settled_is_done_example :
    execute sound worker (msg 1) finished ≡ (verdict done "" none, record finished { tick = 1 })
settled_is_done_example =
    settled_is_done sound worker (msg 1) finished refl
      (inr (finished_event, unfold find_row in refl, inl refl))

processed_is_overwritten_example :
    ((execute (fails_at 0) worker (msg 3) finished).0.action ≡ dlq)
    × (find_row "id-1" (execute (fails_at 0) worker (msg 3) finished).1.events
        ≡ some (record finished_event { status = failed; processed_at = none; retry_count = 1 }))
processed_is_overwritten_example =
    processed_is_overwritten (fails_at 0) worker (msg 3) finished finished_event "refused"
      (unfold find_row in refl) refl refl refl refl (omega arith)

abbrev delivery : Delivery
delivery = record { value = first_text; offset = pos 0 }

-- The lookup fails, so that the message is retried.
is_retried : (execute (fails_at 0) worker (msg 1) waits).0.action ≡ retry
unfolding execute after_find handle_failure find_by_id find_answer increment_retry update_status
    call is_not_found
is_retried = refl

is_published : (fails_at 0).fault (execute (fails_at 0) worker (msg 1) waits).1.tick ≡ none
unfolding execute after_find handle_failure find_by_id find_answer increment_retry call is_not_found
    update_answer rows_affected
is_published = refl

-- Every call fails.
abbrev dead : Machine
dead = machine (λ k. some "refused")

is_retried_dead : (execute dead worker (msg 1) waits).0.action ≡ retry
unfolding execute after_find handle_failure find_by_id find_answer increment_retry update_status
    call is_not_found
is_retried_dead = refl

first_text_parsed : unmarshal_event_message dead.json_error first_text ≡ ok (msg 1)
unfolding unmarshal_event_message tokens set_all members before of_code unquote atoi natural digits
first_text_parsed = refl

retry_is_committed_example :
    let after = (process_message dead worker topics first_text waits).1 in
    let on = run_processor dead worker topics [] after in
    (dead.fault (execute dead worker (msg 1) waits).1.tick ≡ none
      → after.sent ≡ [] ++ message_of dead topics.events "id-1" (encode (retry_of (msg 1))) ∷ [])
    × ((why : String)
        → dead.fault (execute dead worker (msg 1) waits).1.tick ≡ some why
        → after.sent ≡ [])
    × (run_processor dead worker topics (fetched delivery false none ∷ []) waits
        ≡ (record { committed = delivery ∷ on.0.committed; stopped = on.0.stopped }, on.1))
retry_is_committed_example =
    retry_is_committed dead worker topics delivery (msg 1) waits first_text_parsed is_retried_dead
      []

abbrev input : IngestEventInput
input = record { idempotency_key = "k"; source = "shop"; event_type = "sale"; payload = "{}" }

not_at_expiry : (e : Entry) → find_key "k" stale.keys ≡ some e → pos 6 ≢ e.expires_at
unfolding find_key
not_at_expiry e h = grind arith

-- The last of the calls fails, the one that records the success, behind the three of the analytics write.
success_lost :
    (fails_at 7).fault
      ((write_analytics (fails_at 7) worker waiting_event (marked (msg 1) waits)).1.tick + 1)
    ≡ some "refused"
unfolding write_analytics write_event batch_answer append_answer send_answer call now
success_lost = refl

lost_success_is_done_example :
    ((execute (fails_at 7) worker (msg 1) waits).0 ≡ verdict done "shop" none)
    × (find_row "id-1" (execute (fails_at 7) worker (msg 1) waits).1.events
        ≡ some (with_status processing none waiting_event))
    × ((execute (fails_at 7) worker (msg 1) waits).1.sent ≡ [])
lost_success_is_done_example =
    lost_success_is_done (fails_at 7) worker (msg 1) waits waiting_event "refused"
      (unfold find_row in refl) (inl refl) refl refl success_lost
