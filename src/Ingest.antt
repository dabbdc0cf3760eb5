-- ===== src/Ingest.antt =====
-- internal/core/usecase/ingest_event.go: persist a new event, then dispatch it.
pub mod Effects
pub mod Success
use event_observability_plat.Common.{
  String, Bool, true, false, Option, none, some, ℤ, pos, if◌then◌else◌,
}
use event_observability_plat.Errors.{Err, wrapped, Result, ok, err}
use event_observability_plat.Domain.{Event, pending, EventMessage}
use event_observability_plat.Mapper.{marshal_event_message}
use event_observability_plat.Runtime.{World, Machine, M, ◌>>=◌, ◌>>◌, pure, new_uuid, now}
use event_observability_plat.Storage.Events.{insert}
use event_observability_plat.Messaging.{publish}

pub record IngestEventInput : Type 0 where
  pub idempotency_key : String
  pub source : String
  pub event_type : String
  pub payload : String

-- `publisher` says whether the use case was given one; the logger is left out.
pub record IngestEvent : Type 0 where
  pub publisher : Bool
  pub topic : String

abbrev pub new_event : IngestEventInput → String → ℤ → Event
new_event input id created = record {
  id = id;
  idempotency_key = input.idempotency_key;
  source = input.source;
  event_type = input.event_type;
  payload = input.payload;
  status = pending;
  retry_count = 0;
  created_at = created;
  processed_at = none;
}

module _ (m : Machine) (uc : IngestEvent) where
  unfoldable pub dispatch_value : String → Result String → M (Unit {0})
  dispatch_value id (err e) = pure tt
  dispatch_value id (ok value) = do lost ← publish m uc.topic id value; pure tt

  -- The publication; a failure of it, or of the encoding, is passed over.
  unfoldable pub dispatch : String → M (Unit {0})
  dispatch id =
      if uc.publisher
      then dispatch_value id (marshal_event_message (record { event_id = id; attempt = pos 1 }))
      else pure tt

  unfoldable pub after_insert : String → Option Err → M (Result String)
  after_insert id (some e) = pure (err (wrapped "insert event" e))
  after_insert id none = do dispatch id; pure (ok id)

  -- `Execute`; the result is the id of the event.
  unfoldable pub execute : IngestEventInput → M (Result String)
  execute input = do
    id ← new_uuid m
    created ← now m
    failure ← insert m (new_event input id created)
    after_insert id failure
