-- ===== src/Worker/Retries.antt =====
-- The life of a message that is retried: how long it lasts, and how it can be lost.
use event_observability_plat.Common.{
  ◌≡◌, refl, arith, String, false, none, some, List, [], ◌∷◌, ◌++◌, pos, ◌+ℤ◌,
}
use event_observability_plat.Errors.{ok}
use event_observability_plat.Domain.{EventMessage}
use event_observability_plat.Mapper.{encode, marshal_event_message, unmarshal_event_message}
use event_observability_plat.Runtime.{World, Machine, call}
use event_observability_plat.Messaging.{publish, publish_answer}
use event_observability_plat.Ingest.Success.{message_of}
use event_observability_plat.Process.{ProcessEvent, retry, execute}
use event_observability_plat.Process.Frame.{execute-Frame}
use event_observability_plat.Worker.{
  Topics, Delivery, Fetch, fetched, publish_value, publish_retry, route, process_decoded,
  process_message, consume, run_processor,
}

-- The message that `publishRetry` makes of a message.
abbrev pub retry_of : EventMessage → EventMessage
retry_of msg = record { event_id = msg.event_id; attempt = msg.attempt +ℤ pos 1 }

module _ (m : Machine) (uc : ProcessEvent) (topics : Topics) (d : Delivery) (msg : EventMessage)
    (w : World) (parsed : unmarshal_event_message m.json_error d.value ≡ ok msg)
    (again : (execute m uc msg w).0.action ≡ retry) where
  sent-kept : (execute m uc msg w).1.sent ≡ w.sent
  sent-kept =
      ((execute-Frame w.sent w.keys w.counts m uc msg).at w
        (record { sent_kept = refl; keys_kept = refl; counts_kept = refl })).sent_kept

  -- A message whose verdict is a retry is queued again with the next attempt, behind everything else, where the
  -- publication succeeds.
  pub retry_is_queued :
      m.fault (execute m uc msg w).1.tick ≡ none
      → (process_message m uc topics d.value w).1.sent
        ≡ w.sent ++ message_of m topics.events msg.event_id (encode (retry_of msg)) ∷ []
  unfolding process_message process_decoded route publish_retry publish_value publish publish_answer
      call marshal_event_message
  retry_is_queued sound = ground (arith, parsed, again, sent-kept)

  -- Where that publication fails, nothing is queued.
  retry_is_dropped :
      (why : String)
      → m.fault (execute m uc msg w).1.tick ≡ some why
      → (process_message m uc topics d.value w).1.sent ≡ w.sent
  unfolding process_message process_decoded route publish_retry publish_value publish publish_answer
      call marshal_event_message
  retry_is_dropped why broken = ground (arith, parsed, again, sent-kept)

  -- For a fetched message that parses, whose commit succeeds and for which the use case asks for a retry: where the
  -- publication succeeds, the queue gains exactly one message, behind everything else, with the same event and
  -- the attempt one higher; where it fails, the queue gains nothing; and either way the consumer commits the
  -- message it has fetched and goes on with the next ones from there.
  pub retry_is_committed :
      (rest : List Fetch)
      → let after = (process_message m uc topics d.value w).1 in
        let on = run_processor m uc topics rest after in
        (m.fault (execute m uc msg w).1.tick ≡ none
          → after.sent
            ≡ w.sent ++ message_of m topics.events msg.event_id (encode (retry_of msg)) ∷ [])
        × ((why : String) → m.fault (execute m uc msg w).1.tick ≡ some why → after.sent ≡ w.sent)
        × (run_processor m uc topics (fetched d false none ∷ rest) w
            ≡ (record { committed = d ∷ on.0.committed; stopped = on.0.stopped }, on.1))
  unfolding run_processor consume
  retry_is_committed rest = (retry_is_queued, retry_is_dropped, refl)
