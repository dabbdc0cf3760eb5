-- ===== src/Ingest/Success.antt =====
-- What one ingestion does to the tables and to the queue.
use event_observability_plat.Common.{
  ℕ, ◌+◌, ◌≡◌, ◌⊎◌, arith, String, true, none, [], ◌∷◌, ◌++◌, pos,
}
use event_observability_plat.Errors.{Err, ok, err}
use event_observability_plat.Domain.{Event, EventMessage}
use event_observability_plat.Mapper.{encode, marshal_event_message}
use event_observability_plat.Runtime.{World, Machine, Message, call, now, new_uuid}
use event_observability_plat.Messaging.{publish, publish_answer}
use event_observability_plat.Messaging.Carrier.{inject}
use event_observability_plat.Storage.Events.{find_row, insert, insert_answer}
use event_observability_plat.Ingest.{
  IngestEvent, IngestEventInput, dispatch, dispatch_value, after_insert, execute, new_event,
}

abbrev pub message_of : Machine → String → String → String → Message
message_of m topic key value = record {
  topic = topic;
  key = key;
  value = value;
  headers = inject m.propagated [];
}

-- The message that an ingestion queues.
abbrev pub first_attempt : String → EventMessage
first_attempt id = record { event_id = id; attempt = pos 1 }

module _ (m : Machine) (uc : IngestEvent) (input : IngestEventInput) (w : World) where
  -- The row that the ingestion stores.
  abbrev pub stored_event : Event
  stored_event = new_event input (m.uuid w.tick) (m.clock (w.tick + 1))

  abbrev pub first_message : Message
  first_message = message_of m uc.topic (m.uuid w.tick) (encode (first_attempt (m.uuid w.tick)))

  -- Where no call fails, the id is new and there is a publisher: the ingestion returns the id; it appends the one
  -- pending row with the input's fields, and one message with that id as its key, the first attempt as
  -- its value, to the topic; nothing else changes.
  pub execute_quiet :
      ((k : ℕ) → m.fault k ≡ none)
      → find_row (m.uuid w.tick) w.events ≡ none
      → uc.publisher ≡ true
      → execute m uc input w ≡ (
        ok (m.uuid w.tick),
        record w {
          tick = w.tick + 1 + 1 + 1 + 1;
          events = w.events ++ stored_event ∷ [];
          sent = w.sent ++ first_message ∷ [];
        },
      )
  unfolding execute after_insert dispatch dispatch_value insert insert_answer publish publish_answer
      call now new_uuid marshal_event_message
  execute_quiet quiet fresh has = ground (arith, quiet (w.tick + 1 + 1), quiet (w.tick + 1 + 1 + 1))

  -- Whatever fails: where the ingestion returns an id, the row was appended, and the queue grew by the
  -- one message of the first attempt or, where it could not be published, not at all; where the
  -- ingestion returns an error, nothing was stored and nothing was queued.
  pub execute_cases :
      ((id : String)
        → (execute m uc input w).0 ≡ ok id
        → (id ≡ m.uuid w.tick)
          × ((execute m uc input w).1.events ≡ w.events ++ stored_event ∷ [])
          × (((execute m uc input w).1.sent ≡ w.sent)
              ⊎ ((execute m uc input w).1.sent ≡ w.sent ++ first_message ∷ [])))
      × ((e : Err)
          → (execute m uc input w).0 ≡ err e
          → ((execute m uc input w).1.events ≡ w.events) × ((execute m uc input w).1.sent ≡ w.sent))
  unfolding execute after_insert dispatch dispatch_value insert insert_answer publish publish_answer
      call now new_uuid marshal_event_message
  execute_cases = (λ id h. (ground arith, ground arith, ground arith), λ e h. ground arith)
