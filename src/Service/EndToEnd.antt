-- ===== src/Service/EndToEnd.antt =====
-- A server and a worker that are started in one environment.
use event_observability_plat.Common.{
  itoa, ℕ, suc, ◌≡◌, length, refl, ap, ◌∙◌, String, none, some, List, [], ◌∷◌, ◌++◌, ℤ,
}
use event_observability_plat.Domain.{processed}
use event_observability_plat.Mapper.{encode}
use event_observability_plat.Runtime.{World, Machine, Message, Count, http_requests}
use event_observability_plat.Config.{Config}
use event_observability_plat.Storage.Events.{find_row, with_status}
use event_observability_plat.Storage.Analytics.{log_row}
use event_observability_plat.Storage.Idempotency.{find_key, unexpired}
use event_observability_plat.Ingest.Success.{message_of, first_attempt}
use event_observability_plat.Worker.{Topics, process_message}
use event_observability_plat.Worker.Queue.{values_of, values_of-own, drop, work_off}
use event_observability_plat.Process.{ProcessEvent}
use event_observability_plat.Http.{Reply, write_json}
use event_observability_plat.Http.Webhook.{WebhookRequest, Incoming, handle_event}
use event_observability_plat.Http.Webhook.Replay.{Reaches, IsSound, new_id, added}
use event_observability_plat.Http.Middleware.{HttpRequest, add_count}
use event_observability_plat.Http.Whole.{first_bytes, trace_text, respond, respond_cases}
use event_observability_plat.System.Delivered.{accepted_is_processed}
use event_observability_plat.Service.Wiring.{Libraries, server_of, process_event_of, topics_of}

-- A worker that finds one message at an offset, and no other behind it.
takes_one :
    (m : Machine) (uc : ProcessEvent) (topics : Topics) (k : ℕ) (v : String) (w : World)
    → drop k (values_of topics.events w.sent) ≡ v ∷ []
    → drop (suc k) (values_of topics.events (process_message m uc topics v w).1.sent) ≡ []
    → work_off m uc topics 2 k w ≡ (some (suc k), (process_message m uc topics v w).1)
unfolding work_off
takes_one m uc topics k v w one rest = rw (one, work_off) (rw (rest, work_off) refl)

drop-length : (xs : List String) (v : String) → drop (length xs) (xs ++ v ∷ []) ≡ v ∷ []
drop-length [] v = refl
drop-length (x ∷ xs) v = drop-length xs v

drop-suc-length : (xs : List String) (v : String) → drop (suc (length xs)) (xs ++ v ∷ []) ≡ []
drop-suc-length [] v = refl
drop-suc-length (x ∷ xs) v = drop-suc-length xs v

module _ (lib : Libraries) (cfg : Config) (m : Machine) (fresh : String) (q : WebhookRequest)
    (r : HttpRequest) (w : World) (s : IsSound m (server_of lib cfg).webhook w) where
  -- The request as the webhook handler reads it.
  abbrev pub incoming_of : Incoming
  incoming_of = record {
    content_type = r.content_type;
    body = first_bytes 1048576 r.body;
    trace_id = trace_text r.span;
  }

  abbrev pub event_id : String
  event_id = new_id m (server_of lib cfg).webhook q incoming_of.trace_id w s

  -- How many messages the events topic has held before.
  abbrev pub offset : ℕ
  offset = length (values_of cfg.kafka.topic_events w.sent)

  -- A server and a worker that are built from one configuration, where no call fails: a POST to /webhooks/events with a
  -- valid body of at most 1 MiB, whose key has no live entry, is answered 202, and a worker that had come to
  -- the end of the events topic handles one message and is at the end again; then the event is processed,
  -- one row about it has gone into events_log, and the queue is as the server left it. The id is not in use.
  pub posted_is_processed :
      r.method ≡ "POST"
      → r.path ≡ "/webhooks/events"
      → Reaches incoming_of q
      → unexpired (m.clock w.tick) (find_key q.idempotency_key w.keys) ≡ none
      → let e = added m (server_of lib cfg).webhook q incoming_of.trace_id w s in
        let one = respond m (server_of lib cfg) fresh r w in
        let two = work_off m (process_event_of cfg) (topics_of cfg) 2 offset one.world in
        (one.status ≡ some 202)
        × (two.0 ≡ some (suc offset))
        × ((at : ℤ) × (find_row event_id two.1.events ≡ some (with_status processed (some at) e)))
        × ((at : ℤ) × (two.1.log ≡ w.log ++ log_row e at ∷ []))
        × (two.1.sent ≡ one.world.sent)
  unfolding server_of process_event_of topics_of write_json
  posted_is_processed post path reaches dead =
      let h = (server_of lib cfg).webhook in
      let uc = process_event_of cfg in
      let topics = topics_of cfg in
      let value = encode (first_attempt event_id) in
      let handled = handle_event m h incoming_of w in
      let cases = respond_cases m (server_of lib cfg) fresh r w in
      let served = cases.3 post path in
      let counts : List Count =
        handled.1.counts ++ http_requests r.method r.path (itoa handled.0.status) ∷ [] in
      let w' : World = record handled.1 { counts = counts } in
      let counted : (respond m (server_of lib cfg) fresh r w).world ≡ w' =
        cases.2
        ∙ ap
            (λ (out : Reply × World).
              add_count (http_requests r.method r.path (itoa out.0.status)) out.1)
            served in
      let (reply, sent, stored, logged, kept) =
        accepted_is_processed m h q incoming_of w s uc topics counts reaches dead refl in
      let behind : values_of topics.events w'.sent ≡ values_of topics.events w.sent ++ value ∷ [] =
        ap (values_of topics.events) sent
        ∙ values_of-own topics.events (message_of m h.ingest.topic event_id value) w.sent refl in
      let before = values_of topics.events w.sent in
      let found = ap (drop offset) behind ∙ drop-length before value in
      let rest =
        ap (λ (x : List Message). drop (suc offset) (values_of topics.events x)) kept
        ∙ (ap (drop (suc offset)) behind ∙ drop-suc-length before value) in
      let taken = takes_one m uc topics offset value w' found rest in
      let status =
        cases.1
        ∙ ap (λ (out : Reply × World). some out.0.status) served
        ∙ ap (λ (x : Reply). some x.status) reply in
      rw counted (rw taken (status, refl, stored, logged, kept))
