-- ===== src/Http/Webhook/Replay.antt =====
-- Two requests with one idempotency key.
use text.Mathlib.Text.{starts_with}
use event_observability_plat.Common.{
  ℕ, ◌+◌, ◌≡◌, refl, ◌∙◌, arith, String, true, str_eq_iff, none, some, List, [], ◌∷◌, ◌++◌, ◌<ℤ◌,
  ◌≤ℤ◌, if◌then◌else◌,
}
use event_observability_plat.Errors.{ok}
use event_observability_plat.Domain.{Event, Entry, ttl}
use event_observability_plat.Runtime.{
  World, Machine, call, now, tick, events_duplicate, events_processed,
}
use event_observability_plat.Ingest.{IngestEventInput}
use event_observability_plat.Ingest.Success.{stored_event, execute_quiet, first_message}
use event_observability_plat.Storage.Events.{find_row, is_some}
use event_observability_plat.Storage.Events.Rows.{find_row-append_new}
use event_observability_plat.Storage.Memory.{find_key-append}
use event_observability_plat.Storage.Idempotency.{find_key, unexpired, insert_key}
use event_observability_plat.Storage.Idempotency
use event_observability_plat.Http.{webhook_response, write_json}
use event_observability_plat.Http.Webhook.{
  WebhookHandler, WebhookRequest, Incoming, decode_request, marshal_response, validate, replay,
  accept, after_ingest, after_lookup, handle_valid, after_decode, handle_event,
}

-- A request that reaches the idempotency check with the decoded body q.
pub record Reaches (r : Incoming) (q : WebhookRequest) : Type 0 where
  pub json : starts_with r.content_type "application/json" ≡ true
  pub parsed : decode_request r.body ≡ some q
  pub valid : validate q ≡ none

module _ (m : Machine) (h : WebhookHandler) where
  pub Reaches-handle :
      (r : Incoming) (q : WebhookRequest) (w : World)
      → Reaches r q
      → handle_event m h r w ≡ handle_valid m h q r.trace_id w
  unfolding handle_event after_decode
  Reaches-handle r q w s = ground (arith, s.json, s.parsed, s.valid)

  module _ (quiet : (k : ℕ) → m.fault k ≡ none) where
    pub get_quiet :
        (key : String) (w : World)
        → Idempotency.get m key w ≡ (
          ok (unexpired (m.clock w.tick) (find_key key w.keys)),
          record w { tick = w.tick + 1 + 1 },
        )
    unfolding Idempotency.get Idempotency.get_answer now call
    get_quiet key w = ground (arith, quiet (w.tick + 1))

    -- A request whose key has an entry that has not expired is answered from the entry; it stores
    -- nothing and queues nothing, and is counted as a duplicate.
    replay_live :
        (q : WebhookRequest) (trace : String) (w : World) (e : Entry)
        → find_key q.idempotency_key w.keys ≡ some e
        → m.clock w.tick <ℤ e.expires_at
        → handle_valid m h q trace w ≡ (
          replay h e,
          record w { tick = w.tick + 1 + 1; counts = w.counts ++ events_duplicate ∷ [] },
        )
    unfolding handle_valid after_lookup unexpired
    replay_live q trace w e found live = ground (arith, get_quiet q.idempotency_key w)

-- What the first of two requests meets: no call fails, the id is new, and there is a publisher.
pub record IsSound (m : Machine) (h : WebhookHandler) (w : World) : Type 0 where
  pub quiet : (k : ℕ) → m.fault k ≡ none
  pub fresh : find_row (m.uuid (w.tick + 1 + 1)) w.events ≡ none
  pub publisher : h.ingest.publisher ≡ true

abbrev pub input_of : WebhookRequest → IngestEventInput
input_of q = record {
  idempotency_key = q.idempotency_key;
  source = q.source;
  event_type = q.event_type;
  payload = q.payload;
}

module _ (m : Machine) (h : WebhookHandler) (q : WebhookRequest) (trace : String) (w : World)
    (s : IsSound m h w) where
  -- The worlds after the lookup and after the ingestion, and the entry that is cached.
  abbrev pub looked : World
  looked = record w { tick = w.tick + 1 + 1 }

  abbrev pub new_id : String
  new_id = m.uuid looked.tick

  abbrev pub added : Event
  added = stored_event m h.ingest (input_of q) looked

  abbrev pub ingested : World
  ingested = record w {
    tick = looked.tick + 1 + 1 + 1 + 1;
    events = w.events ++ added ∷ [];
    sent = w.sent ++ first_message m h.ingest (input_of q) looked ∷ [];
  }

  abbrev pub cached : Entry
  cached = record {
    event_id = new_id;
    response = marshal_response new_id trace;
    expires_at = ttl (m.clock ingested.tick) h.idem_ttl;
  }

  abbrev pub keys_after : List (String × Entry)
  keys_after =
      if is_some (find_key q.idempotency_key w.keys)
      then w.keys
      else w.keys ++ (q.idempotency_key, cached) ∷ []

  abbrev pub accepted : World
  accepted = record ingested {
    tick = ingested.tick + 1 + 1;
    keys = keys_after;
    counts = w.counts ++ events_processed q.source "accepted" ∷ [];
  }

  stored_id : is_some (find_row new_id ingested.events) ≡ true
  stored_id =
      ground (arith, find_row-append_new added new_id w.events s.fresh, str_eq_iff new_id new_id)

  set_quiet :
      Idempotency.set m q.idempotency_key cached (tick ingested)
      ≡ (none, record ingested { tick = ingested.tick + 1 + 1; keys = keys_after })
  unfolding Idempotency.set Idempotency.set_answer insert_key call
  set_quiet = ground (arith, s.quiet (ingested.tick + 1), stored_id)

  -- What follows a lookup that has found nothing.
  pub accept_looked :
      after_lookup m h q trace (ok none) looked
      ≡ (write_json 202 (webhook_response new_id trace), accepted)
  unfolding after_lookup after_ingest accept now
  accept_looked =
      ground
        (arith, execute_quiet m h.ingest (input_of q) looked s.quiet s.fresh s.publisher, set_quiet)

  -- A request whose key has no live entry is accepted.
  pub accept_quiet :
      unexpired (m.clock w.tick) (find_key q.idempotency_key w.keys) ≡ none
      → handle_valid m h q trace w ≡ (write_json 202 (webhook_response new_id trace), accepted)
  unfolding handle_valid
  accept_quiet dead = ground (arith, get_quiet m h s.quiet q.idempotency_key w, accept_looked)

  -- A first request whose key is new is accepted, and a second one with the same key, whatever else it
  -- holds, that comes before the entry expires is answered from the cache: its reply is 200 with what the
  -- column gives back of the first response, and it stores no event and no key and queues nothing. No call
  -- fails, the new id is not in use, and there is a publisher.
  pub duplicate_is_absorbed :
      (first second : Incoming) (q' : WebhookRequest)
      → first.trace_id ≡ trace
      → Reaches first q
      → Reaches second q'
      → q'.idempotency_key ≡ q.idempotency_key
      → find_key q.idempotency_key w.keys ≡ none
      → m.clock accepted.tick <ℤ cached.expires_at
      → let one = handle_event m h first w in
        let two = handle_event m h second one.1 in
        (one.0 ≡ write_json 202 (webhook_response new_id trace))
        × (two.0 ≡ replay h cached)
        × (two.1.events ≡ w.events ++ added ∷ [])
        × (two.1.events ≡ one.1.events)
        × (two.1.sent ≡ one.1.sent)
        × (two.1.keys ≡ one.1.keys)
  unfolding unexpired
  duplicate_is_absorbed first second q' t r r' same new live =
      let stored : find_key q'.idempotency_key keys_after ≡ some cached = ground (
        arith,
        find_key-append w.keys q.idempotency_key q'.idempotency_key cached new,
        str_eq_iff q.idempotency_key q'.idempotency_key,
      ) in
      ground (
        arith,
        Reaches-handle m h first q w r,
        accept_quiet,
        Reaches-handle m h second q' accepted r',
        replay_live m h s.quiet q' second.trace_id accepted cached stored live,
      )

module _ (m : Machine) (h : WebhookHandler) (q : WebhookRequest) (trace : String) (w : World)
    (s : IsSound m h w) (old : Entry) (there : find_key q.idempotency_key w.keys ≡ some old)
    (late : (k : ℕ) → old.expires_at ≤ℤ m.clock k) where
  expired_accepts :
      (handle_valid m h q trace w ≡ (
        write_json 202 (webhook_response (new_id m h q trace w s) trace),
        accepted m h q trace w s,
      ))
      × ((accepted m h q trace w s).keys ≡ w.keys)
  unfolding unexpired
  expired_accepts =
      (accept_quiet m h q trace w s (ground (arith, there, late w.tick)), ground (arith, there))

-- Once the entry of a key has expired, requests with that key are no longer told apart: where the
-- clock reads no earlier than its expiry, two requests with the key are both accepted, each stores an
-- event of its own with that key, and the expired entry stays. No call fails, the id of each is new
-- when it comes, and there is a publisher.
pub expired_key_admits_both :
    (m : Machine) (h : WebhookHandler) (first second : Incoming) (q q' : WebhookRequest) (w : World)
    (old : Entry) (s : IsSound m h w)
    → IsSound m h (accepted m h q first.trace_id w s)
    → Reaches first q
    → Reaches second q'
    → q'.idempotency_key ≡ q.idempotency_key
    → find_key q.idempotency_key w.keys ≡ some old
    → ((k : ℕ) → old.expires_at ≤ℤ m.clock k)
    → let one = handle_event m h first w in
      let two = handle_event m h second one.1 in
      (one.0.status ≡ 202)
      × (two.0.status ≡ 202)
      × ((e : Event) × (e' : Event) × (e.idempotency_key ≡ q.idempotency_key)
          × (e'.idempotency_key ≡ q.idempotency_key)
          × (two.1.events ≡ (w.events ++ e ∷ []) ++ e' ∷ []))
      × (two.1.keys ≡ w.keys)
unfolding write_json
expired_key_admits_both m h first second q q' w old s s' r r' same there late =
    let w' = accepted m h q first.trace_id w s in
    let one = expired_accepts m h q first.trace_id w s old there late in
    let there' : find_key q'.idempotency_key w'.keys ≡ some old = ground (arith, there, one.1) in
    let two = expired_accepts m h q' second.trace_id w' s' old there' late in
    let first_is = Reaches-handle m h first q w r ∙ one.0 in
    let second_is = Reaches-handle m h second q' w' r' ∙ two.0 in
    rw first_is (
      rw second_is (
        refl,
        refl,
        (added m h q first.trace_id w s, added m h q' second.trace_id w' s', refl, same, refl),
        two.1 ∙ one.1,
      ))
