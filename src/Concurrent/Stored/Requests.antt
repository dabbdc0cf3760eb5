-- ===== src/Concurrent/Stored/Requests.antt =====
-- A request publishes the message of its event after the row is stored.
use event_observability_plat.Common.{◌≡◌, refl, String, Option, Option-cases, inl, inr, none, some}
use event_observability_plat.Errors.{Result, ok, err}
use event_observability_plat.Domain.{Entry}
use event_observability_plat.Runtime.{World, Machine}
use event_observability_plat.Ingest.{IngestEvent, IngestEventInput}
use event_observability_plat.Ingest.Success.{first_attempt}
use event_observability_plat.Http.Webhook.{WebhookHandler, WebhookRequest, Incoming, validate}
use event_observability_plat.Concurrent.Requests.{
  send_task, dispatch_task, inserted_task, ingest_task, accept_task, looked_up_task, decoded_task,
  request_task,
}
use event_observability_plat.Concurrent.Stored.{
  IsAbout, marshal-IsAbout, IsStored, IsSafeFrom, Anything, then-IsSafeFrom, finished-IsSafeFrom,
}
use event_observability_plat.Concurrent.Stored.Calls.{safe_from_rules}

module _ (m : Machine) (uc : IngestEvent) where
  send-IsSafeFrom :
      (id : String) (v : Result String) (w : World)
      → IsStored w id
      → ((value : String) → v ≡ ok value → IsAbout id value)
      → IsSafeFrom Anything w (send_task m uc id v)
  unfolding send_task
  send-IsSafeFrom id (err e) w stored about = search safe_from_rules
  send-IsSafeFrom id (ok value) w stored about =
      let fits = about value refl in search safe_from_rules

  dispatch-IsSafeFrom :
      (id : String) (w : World) → IsStored w id → IsSafeFrom Anything w (dispatch_task m uc id)
  unfolding dispatch_task
  dispatch-IsSafeFrom id w stored =
      let sends = send-IsSafeFrom id _ w stored (marshal-IsAbout (first_attempt id)) in
      search (safe_from_rules, sends)

  inserted-IsSafeFrom :
      (id : String) (w : World) → IsStored w id → IsSafeFrom Anything w (inserted_task m uc id none)
  unfolding inserted_task
  inserted-IsSafeFrom id w stored = search (safe_from_rules, dispatch-IsSafeFrom, then-IsSafeFrom)

  ingest-IsSafeFrom :
      (input : IngestEventInput) (w : World) → IsSafeFrom Anything w (ingest_task m uc input)
  unfolding ingest_task
  ingest-IsSafeFrom input w = search (safe_from_rules, inserted-IsSafeFrom)

module _ (m : Machine) (h : WebhookHandler) where
  accept-IsSafeFrom :
      (r : WebhookRequest) (trace : String) (out : Result String) (w : World)
      → IsSafeFrom Anything w (accept_task m h r trace out)
  unfolding accept_task
  accept-IsSafeFrom r trace (err e) w = search safe_from_rules
  accept-IsSafeFrom r trace (ok id) w = search safe_from_rules

  looked_up-IsSafeFrom :
      (r : WebhookRequest) (trace : String) (found : Result (Option Entry)) (w : World)
      → IsSafeFrom Anything w (looked_up_task m h r trace found)
  unfolding looked_up_task
  looked_up-IsSafeFrom r trace (err e) w = search safe_from_rules
  looked_up-IsSafeFrom r trace (ok (some e)) w = search safe_from_rules
  looked_up-IsSafeFrom r trace (ok none) w =
      search (safe_from_rules, then-IsSafeFrom, ingest-IsSafeFrom, accept-IsSafeFrom)

  decoded-IsSafeFrom :
      (trace : String) (decoded : Option WebhookRequest) (w : World)
      → IsSafeFrom Anything w (decoded_task m h trace decoded)
  unfolding decoded_task
  decoded-IsSafeFrom trace none w = search safe_from_rules
  decoded-IsSafeFrom trace (some r) w = elim (Option-cases (validate r)) [
    | inl valid ↦ rw (valid, decoded_task) (search (safe_from_rules, looked_up-IsSafeFrom))
    | inr (x, invalid) ↦ rw (invalid, decoded_task) (finished-IsSafeFrom _ w)
  ]

  pub request-IsSafeFrom : (r : Incoming) (w : World) → IsSafeFrom Anything w (request_task m h r)
  unfolding request_task
  request-IsSafeFrom r w = search (safe_from_rules, decoded-IsSafeFrom)
