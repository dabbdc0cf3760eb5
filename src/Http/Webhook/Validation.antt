-- ===== src/Http/Webhook/Validation.antt =====
-- Which requests pass the validation.
use event_observability_plat.Common.{◌≡◌, ◌≢◌, ◌↔◌, arith, false, str_eq_iff, none}
use event_observability_plat.Http.Webhook.{WebhookRequest, is_blank, missing_fields, validate}

-- The fields that a request must have.
pub record IsComplete (r : WebhookRequest) : Type 0 where
  pub has_key : is_blank r.idempotency_key ≡ false
  pub has_source : is_blank r.source ≡ false
  pub has_type : is_blank r.event_type ≡ false
  pub has_payload : r.payload ≢ ""
  pub not_null : r.payload ≢ "null"

-- A request passes `validate` exactly when none of its three texts is blank and its payload is neither
-- missing nor the JSON null.
pub validate_iff : (r : WebhookRequest) → (validate r ≡ none) ↔ IsComplete r
unfolding validate missing_fields
validate_iff r = (
  λ h. ground (arith, str_eq_iff r.payload "", str_eq_iff r.payload "null"),
  λ c. ground (arith, str_eq_iff r.payload "", str_eq_iff r.payload "null"),
)
