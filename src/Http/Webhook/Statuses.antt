-- ===== src/Http/Webhook/Statuses.antt =====
-- What the status of a reply says about the tables and the queue, whichever calls fail without an effect.
use text.Mathlib.Text.{starts_with}
use event_observability_plat.Common.{
  ℕ, ◌+◌, ◌≤◌, ◌<◌, ◌≡◌, inl, inr, refl, ◌∙◌, arith, String, Bool-cases, Option, none, some,
  Option-cases, [], ◌∷◌, ◌++◌,
}
use event_observability_plat.Errors.{Err, Result, ok, err}
use event_observability_plat.Domain.{Event, Entry}
use event_observability_plat.Runtime.{World, Machine, call, now, tick}
use event_observability_plat.Ingest.{IngestEventInput, execute}
use event_observability_plat.Ingest.Success.{stored_event, execute_cases}
use event_observability_plat.Storage.Idempotency
use event_observability_plat.Http.{Reply, write_json, respond_error}
use event_observability_plat.Http.Webhook.{
  decode_request, WebhookHandler, WebhookRequest, Incoming, validate, internal_error, replay,
  accept, after_ingest, after_lookup, handle_valid, after_decode, handle_event,
}

-- The tables and the queue before and after a reply.
pub record Tells (reply : Reply) (before after : World) : Type 0 where
  pub rejected : 400 ≤ reply.status → reply.status < 500 → after ≡ before
  pub accepted : reply.status ≡ 202 → (e : Event) × (after.events ≡ before.events ++ e ∷ [])
  pub repeated :
      reply.status ≡ 200
      → (after.events ≡ before.events) × (after.sent ≡ before.sent) × (after.keys ≡ before.keys)
  pub broken : reply.status ≡ 500 → (after.events ≡ before.events) × (after.sent ≡ before.sent)

module _ (m : Machine) where
  pub world-get :
      (key : String) (w : World) → (Idempotency.get m key w).1 ≡ record w { tick = w.tick + 1 + 1 }
  unfolding Idempotency.get Idempotency.get_answer now call
  world-get key w = ground arith

  pub events-set :
      (key : String) (e : Entry) (w : World) → (Idempotency.set m key e w).1.events ≡ w.events
  unfolding Idempotency.set Idempotency.set_answer call
  events-set key e w = ground arith

module _ (reply : Reply) (before after : World) where
  Tells-accepted :
      (e : Event)
      → reply.status ≡ 202
      → after.events ≡ before.events ++ e ∷ []
      → Tells reply before after
  Tells-accepted e s h = record {
    rejected = λ a b. absurd (omega arith);
    accepted = λ _. (e, h);
    repeated = λ t. absurd (omega arith);
    broken = λ t. absurd (omega arith);
  }

  Tells-repeated :
      reply.status ≡ 200
      → after.events ≡ before.events
      → after.sent ≡ before.sent
      → after.keys ≡ before.keys
      → Tells reply before after
  Tells-repeated s e q k = record {
    rejected = λ a b. absurd (omega arith);
    accepted = λ t. absurd (omega arith);
    repeated = λ _. (e, q, k);
    broken = λ t. absurd (omega arith);
  }

  Tells-broken :
      reply.status ≡ 500
      → after.events ≡ before.events
      → after.sent ≡ before.sent
      → Tells reply before after
  Tells-broken s e q = record {
    rejected = λ a b. absurd (omega arith);
    accepted = λ t. absurd (omega arith);
    repeated = λ t. absurd (omega arith);
    broken = λ _. (e, q);
  }

  Tells-rejected :
      reply.status ≤ 499 → 400 ≤ reply.status → after ≡ before → Tells reply before after
  Tells-rejected high low e = record {
    rejected = λ a b. e;
    accepted = λ t. absurd (omega arith);
    repeated = λ t. absurd (omega arith);
    broken = λ t. absurd (omega arith);
  }

status-internal_error : Reply.status internal_error ≡ 500
unfolding internal_error respond_error
status-internal_error = refl

module _ (m : Machine) (h : WebhookHandler) (r : WebhookRequest) (trace : String) where
  accept-status : (id : String) (w : World) → (accept m h r trace id w).0.status ≡ 202
  unfolding accept write_json
  accept-status id w = refl

  accept-events : (id : String) (w : World) → (accept m h r trace id w).1.events ≡ w.events
  unfolding accept now
  accept-events id w = events-set m r.idempotency_key _ (tick w)

  ingest-Tells :
      (out : Result String) (e : Event) (before w : World)
      → ((id : String) → out ≡ ok id → w.events ≡ before.events ++ e ∷ [])
      → ((x : Err) → out ≡ err x → (w.events ≡ before.events) × (w.sent ≡ before.sent))
      → Tells (after_ingest m h r trace out w).0 before (after_ingest m h r trace out w).1
  unfolding after_ingest
  ingest-Tells (ok id) e before w good bad =
      Tells-accepted _ before _ e (accept-status id w) (accept-events id w ∙ good id refl)
  ingest-Tells (err x) e before w good bad =
      Tells-broken internal_error before w status-internal_error (bad x refl).0 (bad x refl).1

  lookup-Tells :
      (found : Result (Option Entry)) (n : ℕ) (w : World)
      → Tells
          (after_lookup m h r trace found (record w { tick = n })).0
          w
          (after_lookup m h r trace found (record w { tick = n })).1
  unfolding after_lookup replay
  lookup-Tells (err x) n w = Tells-broken internal_error w _ status-internal_error refl refl
  lookup-Tells (ok (some e)) n w = Tells-repeated _ w _ refl refl refl refl
  lookup-Tells (ok none) n w =
      let input : IngestEventInput = record {
        idempotency_key = r.idempotency_key;
        source = r.source;
        event_type = r.event_type;
        payload = r.payload;
      } in
      let w' : World = record w { tick = n } in
      let cases = execute_cases m h.ingest input w' in
      ingest-Tells (execute m h.ingest input w').0 (stored_event m h.ingest input w') w
        (execute m h.ingest input w').1 (λ id e. (cases.0 id e).1) cases.1

  valid-Tells : (w : World) → Tells (handle_valid m h r trace w).0 w (handle_valid m h r trace w).1
  unfolding handle_valid
  valid-Tells w =
      rw world-get (lookup-Tells (Idempotency.get m r.idempotency_key w).0 (w.tick + 1 + 1) w)

module _ (m : Machine) (h : WebhookHandler) where
  decoded-Tells :
      (trace : String) (decoded : Option WebhookRequest) (w : World)
      → Tells (after_decode m h trace decoded w).0 w (after_decode m h trace decoded w).1
  unfolding after_decode respond_error
  decoded-Tells trace none w = Tells-rejected _ w w (omega arith) (omega arith) refl
  decoded-Tells trace (some r) w = elim (Option-cases (validate r)) [
    | inl valid ↦ rw (valid, after_decode) (valid-Tells m h r trace w)
    | inr (x, invalid) ↦
        rw (invalid, after_decode) (Tells-rejected _ w w (omega arith) (omega arith) refl)
  ]

  -- Where a call that fails has had no effect, so that no answer of a statement that was carried out is lost, the
  -- status of the reply to a request tells what became of it, whichever calls fail: with a status from 400 to 499
  -- nothing at all has changed; with 202 one event was appended to the stored ones; with 200 neither the events
  -- nor the queue nor the keys have changed; with 500 neither the events nor the queue.
  pub handle-Tells :
      (r : Incoming) (w : World) → Tells (handle_event m h r w).0 w (handle_event m h r w).1
  unfolding handle_event respond_error
  handle-Tells r w = elim (Bool-cases (starts_with r.content_type "application/json")) [
    | inl json ↦ rw json (decoded-Tells r.trace_id (decode_request r.body) w)
    | inr other ↦ rw other (Tells-rejected _ w w (omega arith) (omega arith) refl)
  ]
