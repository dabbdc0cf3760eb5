-- ===== src/Http/Webhook.antt =====
-- internal/app/http/handler/webhook.go: validation, deduplication and ingestion of one request.
-- The reading of a JSONB column is a parameter; spans and log lines are left out.
pub mod Validation
pub mod Invariant
pub mod Statuses
pub mod Replay
use text.Mathlib.Text.{starts_with}
use event_observability_plat.Common.{
  ℕ, String, Bool, true, false, not, ◌||◌, str_eq, Option, none, some, List, [], ◌∷◌, ◌++◌,
  if◌then◌else◌, ℤ, trim_space, join, ◌^^◌,
}
use event_observability_plat.Errors.{Err, Result, ok, err, message}
use event_observability_plat.Domain.{Entry, ttl}
use event_observability_plat.Runtime.{
  World, Machine, M, ◌>>=◌, ◌>>◌, pure, now, count, events_duplicate, events_processed,
}
use mathlib.Core.Option
use event_observability_plat.Json.{before}
use event_observability_plat.Json.Text.{quoted}
use event_observability_plat.Json.Values.{leading_value}
use event_observability_plat.Json.Fields.{
  Member, names, string_field, raw_source, decode_struct, decode_value,
}
use event_observability_plat.Ingest.{IngestEvent, execute}
use event_observability_plat.Storage.Idempotency
use event_observability_plat.Http.{
  Reply, raw, webhook_response, json_type, write_json, respond_error,
}

-- `payload` is the raw JSON text of the field, empty where the field is missing.
pub record WebhookRequest : Type 0 where
  pub idempotency_key : String
  pub source : String
  pub event_type : String
  pub payload : String

abbrev pub is_blank : String → Bool
is_blank s = str_eq (trim_space s) ""

unfoldable pub missing_if : Bool → String → List String
missing_if true name = name ∷ []
missing_if false name = []

-- The names that `validate` collects.
unfoldable pub missing_fields : WebhookRequest → List String
unfolding missing_if
missing_fields r =
    missing_if (is_blank r.idempotency_key) "idempotency_key"
    ++ (missing_if (is_blank r.source) "source"
        ++ (missing_if (is_blank r.event_type) "event_type"
            ++ missing_if (str_eq r.payload "" || str_eq r.payload "null") "payload"))

-- `validate`
unfoldable pub validate : WebhookRequest → Option String
validate r = elim (missing_fields r) [
  | [] ↦ none
  | name ∷ names ↦ some ("missing required fields: " ^^ join ", " (name ∷ names))
]

-- What the handler reads of a request.
pub record Incoming : Type 0 where
  pub content_type : String
  pub body : String
  pub trace_id : String

-- The handler with what it was built from. `jsonb` is what the column `response` gives back for a text stored in it.
pub record WebhookHandler : Type 0 where
  pub ingest : IngestEvent
  pub idem_ttl : ℤ
  pub jsonb : String → String

-- What a member of the body does to the request.
unfoldable pub set_member : Member → WebhookRequest → Option WebhookRequest
unfolding names string_field raw_source
set_member (key, value) r =
    if names "idempotency_key" key
    then Option.map (λ s. record r { idempotency_key = s }) (string_field value r.idempotency_key)
    else if names "source" key
    then Option.map (λ s. record r { source = s }) (string_field value r.source)
    else if names "event_type" key
    then Option.map (λ s. record r { event_type = s }) (string_field value r.event_type)
    else if names "payload" key
    then some (record r { payload = raw_source value })
    else some r

abbrev pub zero_request : WebhookRequest
zero_request = record { idempotency_key = ""; source = ""; event_type = ""; payload = "" }

-- `json.NewDecoder(r.Body).Decode(&req)`; `none` is its error.
unfoldable pub decode_request : String → Option WebhookRequest
unfolding leading_value decode_struct set_member
decode_request s = decode_value set_member (leading_value s) zero_request

-- `json.Marshal` of a webhookResponse, which leaves out an empty trace id.
unfoldable pub marshal_response : String → String → String
unfolding before quoted
marshal_response id trace =
    before "{\"event_id\":"
      (quoted id (if str_eq trace "" then "}" else before ",\"trace_id\":" (quoted trace "}")))

unfoldable pub internal_error : Reply
internal_error = respond_error 500 "INTERNAL_ERROR" "failed to process request"

-- The reply to a duplicate.
unfoldable pub replay : WebhookHandler → Entry → Reply
replay h e = record {
  status = 200;
  headers = json_type ∷ ("X-Idempotent-Replayed", "true") ∷ [];
  body = raw (h.jsonb e.response);
}

module _ (m : Machine) (h : WebhookHandler) where
  -- The response is cached; a failure of that is passed over.
  unfoldable pub accept : WebhookRequest → String → String → M Reply
  accept r trace id = do
    t ← now m
    lost ← Idempotency.set m r.idempotency_key (record {
      event_id = id;
      response = marshal_response id trace;
      expires_at = ttl t h.idem_ttl;
    })
    count (events_processed r.source "accepted")
    pure (write_json 202 (webhook_response id trace))

  unfoldable pub after_ingest : WebhookRequest → String → Result String → M Reply
  after_ingest r trace (err e) = pure internal_error
  after_ingest r trace (ok id) = accept r trace id

  unfoldable pub after_lookup : WebhookRequest → String → Result (Option Entry) → M Reply
  after_lookup r trace (err e) = pure internal_error
  after_lookup r trace (ok (some e)) = do count events_duplicate; pure (replay h e)
  after_lookup r trace (ok none) = do
    out ← execute m h.ingest (record {
      idempotency_key = r.idempotency_key;
      source = r.source;
      event_type = r.event_type;
      payload = r.payload;
    })
    after_ingest r trace out

  -- The handler from the idempotency check on.
  unfoldable pub handle_valid : WebhookRequest → String → M Reply
  handle_valid r trace = do
    existing ← Idempotency.get m r.idempotency_key
    after_lookup r trace existing

  unfoldable pub after_decode : String → Option WebhookRequest → M Reply
  after_decode trace none = pure (respond_error 400 "INVALID_JSON" "request body is not valid JSON")
  after_decode trace (some r) = elim (validate r) [
    | some e ↦ pure (respond_error 422 "VALIDATION_ERROR" e)
    | none ↦ handle_valid r trace
  ]

  -- `HandleEvent`
  unfoldable pub handle_event : Incoming → M Reply
  handle_event r =
      if not (starts_with r.content_type "application/json")
      then pure (respond_error 415 "INVALID_CONTENT_TYPE" "Content-Type must be application/json")
      else after_decode r.trace_id (decode_request r.body)
