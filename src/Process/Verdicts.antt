-- ===== src/Process/Verdicts.antt =====
-- What the use case decides about a message, whatever fails.
use event_observability_plat.Common.{◌≡◌, ◌≢◌, arith, Option, none, some, ℤ, ◌≤ℤ◌, ◌<ℤ◌}
use event_observability_plat.Errors.{Err, Result, ok, err}
use event_observability_plat.Domain.{processing, Event, EventMessage}
use event_observability_plat.Runtime.{World, Machine}
use event_observability_plat.Storage.Events.{find_by_id, update_status}
use event_observability_plat.Process.{
  ProcessEvent, Verdict, done, retry, dlq, handle_failure, after_mark, after_find, execute,
}

-- Done comes without an error; a retry only below the limit and the dead letter queue only at it,
-- each with the error that caused it.
pub record IsDecided (limit attempt : ℤ) (v : Verdict) : Type 0 where
  pub quiet : v.action ≡ done → v.error ≡ none
  pub below : v.action ≡ retry → (attempt <ℤ limit) × (v.error ≢ none) × (v.event_source ≡ "")
  pub reached : v.action ≡ dlq → (limit ≤ℤ attempt) × (v.error ≢ none) × (v.event_source ≡ "")

module _ (m : Machine) (uc : ProcessEvent) (msg : EventMessage) where
  failure-IsDecided :
      (cause : Err) (w : World)
      → IsDecided uc.max_retries msg.attempt (handle_failure m uc msg cause w).0
  unfolding handle_failure
  failure-IsDecided cause w = ground arith

  mark-IsDecided :
      (e : Event) (fault : Option Err) (w : World)
      → IsDecided uc.max_retries msg.attempt (after_mark m uc msg e fault w).0
  unfolding after_mark
  mark-IsDecided e (some cause) w = failure-IsDecided cause w
  mark-IsDecided e none w = ground arith

  find-IsDecided :
      (found : Result Event) (w : World)
      → IsDecided uc.max_retries msg.attempt (after_find m uc msg found w).0
  unfolding after_find
  find-IsDecided (err cause) w = ground (arith, failure-IsDecided cause w)
  find-IsDecided (ok e) w = ground (
    arith,
    mark-IsDecided e (update_status m e.id processing w).0 (update_status m e.id processing w).1,
  )

  -- Whatever calls fail, a message ends as done without an error, as a retry with an error and an attempt
  -- below `maxRetries`, or in the dead letter queue with an error and an attempt of at least `maxRetries`.
  pub execute-IsDecided : (w : World) → IsDecided uc.max_retries msg.attempt (execute m uc msg w).0
  unfolding execute
  execute-IsDecided w =
      find-IsDecided (find_by_id m msg.event_id w).0 (find_by_id m msg.event_id w).1
