-- ===== src/Process.antt =====
-- internal/core/usecase/process_event.go: the worker's use case for one message.
pub mod Effects
pub mod Success
pub mod Verdicts
pub mod Settled
pub mod Logged
pub mod Frame
use event_observability_plat.Common.{
  String, Bool, true, false, ◌||◌, Option, none, some, ℤ, leb_ℤ, if◌then◌else◌,
}
use event_observability_plat.Errors.{Err, is_not_found, Result, ok, err}
use event_observability_plat.Domain.{
  EventStatus, processing, processed, failed, Event, EventMessage, is_processed, is_failed,
}
use event_observability_plat.Runtime.{World, Machine, M, ◌>>=◌, ◌>>◌, pure}
use event_observability_plat.Storage.Events.{find_by_id, update_status, increment_retry}
use event_observability_plat.Storage.Analytics.{write_event}

pub data ProcessAction : Type 0 where
  done retry dlq : ProcessAction

-- ProcessEventResult with the error beside it; the empty text is no source.
pub record Verdict : Type 0 where
  pub action : ProcessAction
  pub event_source : String
  pub error : Option Err

-- `analytics` says whether the use case was given a writer; the logger is left out.
pub record ProcessEvent : Type 0 where
  pub analytics : Bool
  pub max_retries : ℤ

abbrev pub verdict : ProcessAction → String → Option Err → Verdict
verdict a s e = record { action = a; event_source = s; error = e }

module _ (m : Machine) (uc : ProcessEvent) where
  -- `handleFailure`; errors of its own statements are logged and passed over.
  unfoldable pub handle_failure : EventMessage → Err → M Verdict
  handle_failure msg cause = do
    lost ← increment_retry m msg.event_id
    if leb_ℤ uc.max_retries msg.attempt
        then (do lost ← update_status m msg.event_id failed; pure (verdict dlq "" (some cause)))
        else pure (verdict retry "" (some cause))

  -- A failure of the analytics write is not fatal.
  unfoldable pub write_analytics : Event → M (Unit {0})
  write_analytics e = if uc.analytics then (do lost ← write_event m e; pure tt) else pure tt

  unfoldable pub after_mark : EventMessage → Event → Option Err → M Verdict
  after_mark msg e (some cause) = handle_failure msg cause
  after_mark msg e none = do
    write_analytics e
    lost ← update_status m e.id processed
    pure (verdict done e.source none)

  unfoldable pub after_find : EventMessage → Result Event → M Verdict
  after_find msg (err cause) =
      if is_not_found cause then pure (verdict done "" none) else handle_failure msg cause
  after_find msg (ok e) =
      if is_processed e.status || is_failed e.status
      then pure (verdict done "" none)
      else do marked ← update_status m e.id processing; after_mark msg e marked

  -- `Execute`
  unfoldable pub execute : EventMessage → M Verdict
  execute msg = do found ← find_by_id m msg.event_id; after_find msg found
