-- ===== src/Concurrent/Requests.antt =====
-- A webhook request by its calls: `HandleEvent` of internal/app/http/handler/webhook.go and `IngestEvent.Execute` of
-- internal/core/usecase/ingest_event.go; and that without an interruption it is the handler of Http.Webhook.
use text.Mathlib.Text.{starts_with}
use event_observability_plat.Common.{
  ◌≡◌, ◌∙◌, refl, ap, String, not, Bool-cases, inl, inr, Option, Option-cases, none, some,
  if◌then◌else◌, pos,
}
use event_observability_plat.Errors.{Err, wrapped, Result, ok, err}
use event_observability_plat.Domain.{Entry, ttl}
use event_observability_plat.Mapper.{marshal_event_message}
use event_observability_plat.Runtime.{
  World, Machine, now, new_uuid, count, events_duplicate, events_processed,
}
use event_observability_plat.Storage.Events.{insert}
use event_observability_plat.Storage.Idempotency
use event_observability_plat.Messaging.{publish}
use event_observability_plat.Ingest.{
  IngestEvent, IngestEventInput, new_event, execute, after_insert, dispatch, dispatch_value,
}
use event_observability_plat.Http.{Reply, webhook_response, write_json, respond_error}
use event_observability_plat.Http.Webhook.{
  decode_request, marshal_response, WebhookHandler, WebhookRequest, Incoming, validate,
  internal_error, replay, accept, after_ingest, after_lookup, handle_valid, after_decode,
  handle_event,
}
use event_observability_plat.Http.Webhook.Replay.{Reaches}
use event_observability_plat.Concurrent.{
  Task, finished, doing, ◌>>=◌, ◌>>◌, once, write, run, run-bind,
}

module _ (m : Machine) (uc : IngestEvent) where
  unfoldable pub send_task : String → Result String → Task (Unit {0})
  unfolding ◌>>=◌
  send_task id (err e) = finished tt
  send_task id (ok value) = do lost ← write m (λ m'. publish m' uc.topic id value); finished tt

  unfoldable pub dispatch_task : String → Task (Unit {0})
  unfolding send_task
  dispatch_task id =
      if uc.publisher
      then send_task id (marshal_event_message (record { event_id = id; attempt = pos 1 }))
      else finished tt

  unfoldable pub inserted_task : String → Option Err → Task (Result String)
  unfolding dispatch_task
  inserted_task id (some e) = finished (err (wrapped "insert event" e))
  inserted_task id none = do dispatch_task id; finished (ok id)

  -- `IngestEvent.Execute`
  unfoldable pub ingest_task : IngestEventInput → Task (Result String)
  unfolding inserted_task
  ingest_task input = do
    id ← once (new_uuid m)
    created ← once (now m)
    failure ← write m (λ m'. insert m' (new_event input id created))
    inserted_task id failure

module _ (m : Machine) (h : WebhookHandler) where
  unfoldable pub accept_task : WebhookRequest → String → Result String → Task Reply
  unfolding ◌>>=◌
  accept_task r trace (err e) = finished internal_error
  accept_task r trace (ok id) = do
    t ← once (now m)
    lost ← write m (λ m'. Idempotency.set m' r.idempotency_key (record {
      event_id = id;
      response = marshal_response id trace;
      expires_at = ttl t h.idem_ttl;
    }))
    once (count (events_processed r.source "accepted"))
    finished (write_json 202 (webhook_response id trace))

  unfoldable pub looked_up_task : WebhookRequest → String → Result (Option Entry) → Task Reply
  unfolding ingest_task accept_task
  looked_up_task r trace (err e) = finished internal_error
  looked_up_task r trace (ok (some e)) = do once (count events_duplicate); finished (replay h e)
  looked_up_task r trace (ok none) = do
    out ← ingest_task m h.ingest (record {
      idempotency_key = r.idempotency_key;
      source = r.source;
      event_type = r.event_type;
      payload = r.payload;
    })
    accept_task r trace out

  unfoldable pub decoded_task : String → Option WebhookRequest → Task Reply
  unfolding looked_up_task
  decoded_task trace none =
      finished (respond_error 400 "INVALID_JSON" "request body is not valid JSON")
  decoded_task trace (some r) = elim (validate r) [
    | some e ↦ finished (respond_error 422 "VALIDATION_ERROR" e)
    | none ↦ do
      existing ← once (Idempotency.get m r.idempotency_key)
      looked_up_task r trace existing
  ]

  -- `HandleEvent`
  unfoldable pub request_task : Incoming → Task Reply
  unfolding decoded_task
  request_task r =
      if not (starts_with r.content_type "application/json")
      then finished
          (respond_error 415 "INVALID_CONTENT_TYPE" "Content-Type must be application/json")
      else decoded_task r.trace_id (decode_request r.body)

module _ (m : Machine) (uc : IngestEvent) where
  run-send :
      (id : String) (v : Result String) (w : World)
      → run (send_task m uc id v) w ≡ dispatch_value m uc id v w
  unfolding send_task run dispatch_value ◌>>=◌
  run-send id (ok value) w = refl
  run-send id (err e) w = refl

  run-dispatch : (id : String) (w : World) → run (dispatch_task m uc id) w ≡ dispatch m uc id w
  unfolding dispatch_task dispatch run dispatch_value
  run-dispatch id w = elim (Bool-cases uc.publisher) [
    | inl e ↦ rw (e, dispatch_task, dispatch) (run-send id _ w)
    | inr e ↦ rw (e, dispatch_task, dispatch) refl
  ]

  run-inserted :
      (id : String) (failure : Option Err) (w : World)
      → run (inserted_task m uc id failure) w ≡ after_insert m uc id failure w
  unfolding inserted_task run after_insert
  run-inserted id (some e) w = refl
  run-inserted id none w =
      let with_id : Unit {0} × World → Result String × World = λ out. (ok id, out.1) in
      run-bind (dispatch_task m uc id) (λ _. finished (ok id)) w ∙ ap with_id (run-dispatch id w)

  pub run-ingest :
      (input : IngestEventInput) (w : World) → run (ingest_task m uc input) w ≡ execute m uc input w
  unfolding ingest_task run execute ◌>>=◌
  run-ingest input w = run-inserted _ _ _

module _ (m : Machine) (h : WebhookHandler) where
  run-accept :
      (r : WebhookRequest) (trace : String) (out : Result String) (w : World)
      → run (accept_task m h r trace out) w ≡ after_ingest m h r trace out w
  unfolding accept_task run after_ingest accept ◌>>=◌
  run-accept r trace (ok id) w = refl
  run-accept r trace (err e) w = refl

  pub run-looked_up :
      (r : WebhookRequest) (trace : String) (found : Result (Option Entry)) (w : World)
      → run (looked_up_task m h r trace found) w ≡ after_lookup m h r trace found w
  unfolding looked_up_task run after_lookup ◌>>=◌
  run-looked_up r trace (err e) w = refl
  run-looked_up r trace (ok (some e)) w = refl
  run-looked_up r trace (ok none) w =
      let input : IngestEventInput = record {
        idempotency_key = r.idempotency_key;
        source = r.source;
        event_type = r.event_type;
        payload = r.payload;
      } in
      run-bind (ingest_task m h.ingest input) (accept_task m h r trace) w
      ∙ (ap (λ (out : Result String × World). run (accept_task m h r trace out.0) out.1)
            (run-ingest m h.ingest input w)
          ∙ run-accept r trace _ _)

  run-decoded :
      (trace : String) (decoded : Option WebhookRequest) (w : World)
      → run (decoded_task m h trace decoded) w ≡ after_decode m h trace decoded w
  unfolding decoded_task run after_decode handle_valid ◌>>=◌
  run-decoded trace none w = refl
  run-decoded trace (some r) w = elim (Option-cases (validate r)) [
    | inl e ↦ rw (e, decoded_task, after_decode) (run-looked_up r trace _ _)
    | inr (x, e) ↦ rw (e, decoded_task, after_decode) refl
  ]

  -- A request that nothing interrupts is handled as the handler handles it.
  pub run-request : (r : Incoming) (w : World) → run (request_task m h r) w ≡ handle_event m h r w
  unfolding request_task run handle_event
  run-request r w = elim (Bool-cases (starts_with r.content_type "application/json")) [
    | inl e ↦ rw (e, request_task, handle_event) (run-decoded r.trace_id (decode_request r.body) w)
    | inr e ↦ rw (e, request_task, handle_event) refl
  ]

  -- A valid request begins with the lookup of its key.
  pub Reaches-request :
      (r : Incoming) (q : WebhookRequest)
      → Reaches r q
      → request_task m h r
        ≡ doing (Idempotency.get m q.idempotency_key) (looked_up_task m h q r.trace_id)
  unfolding request_task decoded_task ◌>>=◌
  Reaches-request r q s =
      rw (s.json, request_task) (rw (s.parsed, decoded_task) (rw (s.valid, decoded_task) refl))
