-- ===== src/Http/Webhook/Invariant.antt =====
-- The webhook handler keeps the tables well formed.
use event_observability_plat.Common.{Option, none, some, Option-cases, String, inl, inr}
use event_observability_plat.Errors.{Result, ok, err}
use event_observability_plat.Domain.{Entry}
use event_observability_plat.Runtime.{Machine}
use event_observability_plat.Runtime.Keeps.{Keeps, Keeps-pure, keeps_rules}
use event_observability_plat.Storage.Events.Invariant.{IsWellFormed, now-IsWellFormed}
use event_observability_plat.Storage.Idempotency.Invariant.{get-Keeps, set-Keeps}
use event_observability_plat.Ingest.Effects.{execute-Keeps}
use event_observability_plat.Worker.Invariant.{count-Keeps}
use event_observability_plat.Http.Webhook.{
  WebhookHandler, WebhookRequest, Incoming, validate, accept, after_ingest, after_lookup,
  handle_valid, after_decode, handle_event,
}

module _ (m : Machine) (h : WebhookHandler) where
  accept-Keeps :
      (r : WebhookRequest) (trace id : String) → Keeps IsWellFormed (accept m h r trace id)
  unfolding accept
  accept-Keeps r trace id = search (keeps_rules, now-IsWellFormed, set-Keeps, count-Keeps)

  after_ingest-Keeps :
      (r : WebhookRequest) (trace : String) (out : Result String)
      → Keeps IsWellFormed (after_ingest m h r trace out)
  unfolding after_ingest
  after_ingest-Keeps r trace (ok id) = accept-Keeps r trace id
  after_ingest-Keeps r trace (err e) = search keeps_rules

  after_lookup-Keeps :
      (r : WebhookRequest) (trace : String) (found : Result (Option Entry))
      → Keeps IsWellFormed (after_lookup m h r trace found)
  unfolding after_lookup
  after_lookup-Keeps r trace (err e) = search keeps_rules
  after_lookup-Keeps r trace (ok (some e)) = search (keeps_rules, count-Keeps)
  after_lookup-Keeps r trace (ok none) = search (keeps_rules, execute-Keeps, after_ingest-Keeps)

  valid-Keeps :
      (r : WebhookRequest) (trace : String) → Keeps IsWellFormed (handle_valid m h r trace)
  unfolding handle_valid
  valid-Keeps r trace = search (keeps_rules, get-Keeps, after_lookup-Keeps)

  decode-Keeps :
      (trace : String) (decoded : Option WebhookRequest)
      → Keeps IsWellFormed (after_decode m h trace decoded)
  unfolding after_decode
  decode-Keeps trace none = search keeps_rules
  decode-Keeps trace (some r) = elim (Option-cases (validate r)) [
    | inl valid ↦ rw (valid, after_decode) (valid-Keeps r trace)
    | inr (x, invalid) ↦ rw (invalid, after_decode) (Keeps-pure IsWellFormed _)
  ]

  pub handle-Keeps : (r : Incoming) → Keeps IsWellFormed (handle_event m h r)
  unfolding handle_event
  handle-Keeps r = search (keeps_rules, decode-Keeps)
