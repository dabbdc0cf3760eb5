-- ===== src/Concurrent/WellFormed.antt =====
-- However requests and messages interleave, the tables stay well formed.
use event_observability_plat.Common.{[], refl}
use event_observability_plat.Storage.Events.Invariant.{
  IsWellFormed, now-IsWellFormed, insert-Keeps, find-Keeps, update_status-Keeps,
  increment_retry-Keeps,
}
use event_observability_plat.Storage.Idempotency.Invariant.{get-Keeps, set-Keeps}
use event_observability_plat.Messaging.Invariant.{publish-Keeps}
use event_observability_plat.Ingest.Effects.{new_uuid-IsWellFormed}
use event_observability_plat.Process.Effects.{write_event-Keeps}
use event_observability_plat.Worker.Invariant.{count-Keeps}
use event_observability_plat.System.{empty}
use event_observability_plat.Concurrent.Steps.{State, state, Steps}
use event_observability_plat.Concurrent.Parts.{CallsKeep, Steps-kept}

calls_keep-IsWellFormed : CallsKeep IsWellFormed
calls_keep-IsWellFormed = record {
  now_kept = now-IsWellFormed;
  new_uuid_kept = new_uuid-IsWellFormed;
  insert_kept = λ m e p n. insert-Keeps m e (rw p (rw n refl));
  find_kept = find-Keeps;
  update_kept = λ m id s moves. update_status-Keeps m id s;
  increment_kept = increment_retry-Keeps;
  get_kept = get-Keeps;
  set_kept = set-Keeps;
  publish_kept = publish-Keeps;
  write_kept = write_event-Keeps;
  count_kept = count-Keeps;
}

-- From empty tables, however the calls of any requests, messages and dead letters interleave, whatever fails in
-- them, with its effect or without it, and wherever a process ends: a row has a processing time exactly when
-- its status is `processed`, no two rows have one id, and every idempotency key refers to a stored event.
pub Steps-IsWellFormed : (s : State) → Steps (state empty []) s → IsWellFormed s.world
Steps-IsWellFormed s steps =
    Steps-kept IsWellFormed calls_keep-IsWellFormed steps
      (record { stamped = tt; distinct = tt; refers = tt })
