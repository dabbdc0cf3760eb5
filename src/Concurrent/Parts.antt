-- ===== src/Concurrent/Parts.antt =====
-- What every call of the program keeps, every interleaving of them keeps.
use event_observability_plat.Common.{
  false, ◌≡◌, String, Option, Option-cases, inl, inr, none, some, [],
}
use event_observability_plat.Errors.{Err, Result, ok, err}
use event_observability_plat.Domain.{EventStatus, pending, is_pending, Entry, Event, EventMessage}
use event_observability_plat.Runtime.{World, Machine, Count, count, now, new_uuid}
use event_observability_plat.Runtime.Keeps.{Keeps}
use event_observability_plat.Storage.Events.{insert, find_by_id, update_status, increment_retry}
use event_observability_plat.Storage.Idempotency
use event_observability_plat.Storage.Analytics.{write_event}
use event_observability_plat.Messaging.{publish}
use event_observability_plat.Ingest.{IngestEvent, IngestEventInput}
use event_observability_plat.Process.{ProcessEvent, Verdict, ProcessAction, done, retry, dlq}
use event_observability_plat.Worker.{Topics}
use event_observability_plat.Http.Webhook.{WebhookHandler, WebhookRequest, Incoming, validate}
use event_observability_plat.Concurrent.Requests.{
  send_task, dispatch_task, inserted_task, ingest_task, accept_task, looked_up_task, decoded_task,
  request_task,
}
use event_observability_plat.Concurrent.Messages.{
  failure_task, analytics_task, marked_task, found_task, process_task, publish_task, done_task,
  route_task, parsed_task, message_task, failed_task, poison_task,
}
use event_observability_plat.Concurrent.Steps.{
  Job, request, message, poison, part_of, State, state, Steps,
}
use event_observability_plat.Concurrent.Safety.{IsSafe, finished-IsSafe, safe_rules, Steps-All}

-- Every call of the program keeps P; an insertion is one of a pending event, and no event is made pending.
pub record CallsKeep (P : World → Type 0) : Type 0 where
  pub now_kept : (m : Machine) → Keeps P (now m)
  pub new_uuid_kept : (m : Machine) → Keeps P (new_uuid m)
  pub insert_kept :
      (m : Machine) (e : Event) → e.status ≡ pending → e.processed_at ≡ none → Keeps P (insert m e)
  pub find_kept : (m : Machine) (id : String) → Keeps P (find_by_id m id)
  pub update_kept :
      (m : Machine) (id : String) (s : EventStatus)
      → is_pending s ≡ false
      → Keeps P (update_status m id s)
  pub increment_kept : (m : Machine) (id : String) → Keeps P (increment_retry m id)
  pub get_kept : (m : Machine) (key : String) → Keeps P (Idempotency.get m key)
  pub set_kept : (m : Machine) (key : String) (e : Entry) → Keeps P (Idempotency.set m key e)
  pub publish_kept : (m : Machine) (topic key value : String) → Keeps P (publish m topic key value)
  pub write_kept : (m : Machine) (e : Event) → Keeps P (write_event m e)
  pub count_kept : (c : Count) → Keeps P (count c)

module _ (P : World → Type 0) (calls : CallsKeep P) where
  now-Keeps : (m : Machine) → Keeps P (now m)
  now-Keeps = calls.now_kept

  new_uuid-Keeps : (m : Machine) → Keeps P (new_uuid m)
  new_uuid-Keeps = calls.new_uuid_kept

  insert-Keeps :
      (m : Machine) (e : Event) → e.status ≡ pending → e.processed_at ≡ none → Keeps P (insert m e)
  insert-Keeps = calls.insert_kept

  find-Keeps : (m : Machine) (id : String) → Keeps P (find_by_id m id)
  find-Keeps = calls.find_kept

  update_status-Keeps :
      (m : Machine) (id : String) (s : EventStatus)
      → is_pending s ≡ false
      → Keeps P (update_status m id s)
  update_status-Keeps = calls.update_kept

  increment-Keeps : (m : Machine) (id : String) → Keeps P (increment_retry m id)
  increment-Keeps = calls.increment_kept

  get-Keeps : (m : Machine) (key : String) → Keeps P (Idempotency.get m key)
  get-Keeps = calls.get_kept

  set-Keeps : (m : Machine) (key : String) (e : Entry) → Keeps P (Idempotency.set m key e)
  set-Keeps = calls.set_kept

  publish-Keeps : (m : Machine) (topic key value : String) → Keeps P (publish m topic key value)
  publish-Keeps = calls.publish_kept

  write_event-Keeps : (m : Machine) (e : Event) → Keeps P (write_event m e)
  write_event-Keeps = calls.write_kept

  count-Keeps : (c : Count) → Keeps P (count c)
  count-Keeps = calls.count_kept

ruleset call_rules = (
  safe_rules, now-Keeps, new_uuid-Keeps, insert-Keeps, find-Keeps, update_status-Keeps,
  increment-Keeps, get-Keeps, set-Keeps, publish-Keeps, write_event-Keeps, count-Keeps,
)

module _ (P : World → Type 0) (calls : CallsKeep P) where
  module _ (m : Machine) (uc : IngestEvent) where
    send-IsSafe : (id : String) (v : Result String) → IsSafe P (send_task m uc id v)
    unfolding send_task
    send-IsSafe id (ok value) = search call_rules
    send-IsSafe id (err e) = search call_rules

    dispatch-IsSafe : (id : String) → IsSafe P (dispatch_task m uc id)
    unfolding dispatch_task
    dispatch-IsSafe id = search (call_rules, send-IsSafe)

    inserted-IsSafe : (id : String) (e : Option Err) → IsSafe P (inserted_task m uc id e)
    unfolding inserted_task
    inserted-IsSafe id (some e) = search call_rules
    inserted-IsSafe id none = search (call_rules, dispatch-IsSafe)

    ingest-IsSafe : (input : IngestEventInput) → IsSafe P (ingest_task m uc input)
    unfolding ingest_task
    ingest-IsSafe input = search (call_rules, inserted-IsSafe)

  module _ (m : Machine) (h : WebhookHandler) where
    accept-IsSafe :
        (r : WebhookRequest) (trace : String) (out : Result String)
        → IsSafe P (accept_task m h r trace out)
    unfolding accept_task
    accept-IsSafe r trace (ok id) = search call_rules
    accept-IsSafe r trace (err e) = search call_rules

    looked_up-IsSafe :
        (r : WebhookRequest) (trace : String) (found : Result (Option Entry))
        → IsSafe P (looked_up_task m h r trace found)
    unfolding looked_up_task
    looked_up-IsSafe r trace (err e) = search call_rules
    looked_up-IsSafe r trace (ok (some e)) = search call_rules
    looked_up-IsSafe r trace (ok none) = search (call_rules, ingest-IsSafe, accept-IsSafe)

    decoded-IsSafe :
        (trace : String) (decoded : Option WebhookRequest)
        → IsSafe P (decoded_task m h trace decoded)
    unfolding decoded_task
    decoded-IsSafe trace none = search call_rules
    decoded-IsSafe trace (some r) = elim (Option-cases (validate r)) [
      | inl valid ↦ rw (valid, decoded_task) (search (call_rules, looked_up-IsSafe))
      | inr (x, invalid) ↦ rw (invalid, decoded_task) (finished-IsSafe P _)
    ]

    request-IsSafe : (r : Incoming) → IsSafe P (request_task m h r)
    unfolding request_task
    request-IsSafe r = search (call_rules, decoded-IsSafe)

  module _ (m : Machine) (uc : ProcessEvent) where
    failure-IsSafe : (msg : EventMessage) (cause : Err) → IsSafe P (failure_task m uc msg cause)
    unfolding failure_task
    failure-IsSafe msg cause = search call_rules

    analytics-IsSafe : (e : Event) → IsSafe P (analytics_task m uc e)
    unfolding analytics_task
    analytics-IsSafe e = search call_rules

    marked-IsSafe :
        (msg : EventMessage) (e : Event) (fault : Option Err)
        → IsSafe P (marked_task m uc msg e fault)
    unfolding marked_task
    marked-IsSafe msg e (some cause) = failure-IsSafe msg cause
    marked-IsSafe msg e none = search (call_rules, analytics-IsSafe)

    found-IsSafe :
        (msg : EventMessage) (found : Result Event) → IsSafe P (found_task m uc msg found)
    unfolding found_task
    found-IsSafe msg (err cause) = search (call_rules, failure-IsSafe)
    found-IsSafe msg (ok e) = search (call_rules, marked-IsSafe)

    process-IsSafe : (msg : EventMessage) → IsSafe P (process_task m uc msg)
    unfolding process_task
    process-IsSafe msg = search (call_rules, found-IsSafe)

  module _ (m : Machine) (topics : Topics) where
    publish-IsSafe :
        (topic key : String) (v : Result String) → IsSafe P (publish_task m topics topic key v)
    unfolding publish_task
    publish-IsSafe topic key (ok value) = search call_rules
    publish-IsSafe topic key (err e) = search call_rules

    done-IsSafe : (source : String) (e : Option Err) → IsSafe P (done_task m topics source e)
    unfolding done_task
    done-IsSafe source (some e) = search call_rules
    done-IsSafe source none = search call_rules

    route-IsSafe :
        (a : ProcessAction) (msg : EventMessage) (v : Verdict)
        → IsSafe P (route_task m topics a msg v)
    unfolding route_task
    route-IsSafe done msg v = done-IsSafe v.event_source v.error
    route-IsSafe retry msg v = publish-IsSafe topics.events msg.event_id _
    route-IsSafe dlq msg v = search (call_rules, publish-IsSafe)

  module _ (m : Machine) where
    parsed-IsSafe :
        (uc : ProcessEvent) (topics : Topics) (r : Result EventMessage)
        → IsSafe P (parsed_task m uc topics r)
    unfolding parsed_task
    parsed-IsSafe uc topics (ok msg) = search (call_rules, process-IsSafe, route-IsSafe)
    parsed-IsSafe uc topics (err e) = search call_rules

    failed-IsSafe : (r : Result EventMessage) → IsSafe P (failed_task m r)
    unfolding failed_task
    failed-IsSafe (ok msg) = search call_rules
    failed-IsSafe (err e) = search call_rules

  part_of-IsSafe : (job : Job) → IsSafe P (part_of job)
  unfolding part_of message_task poison_task
  part_of-IsSafe (request m h r) = search (call_rules, request-IsSafe)
  part_of-IsSafe (message m uc topics value) = search (call_rules, parsed-IsSafe)
  part_of-IsSafe (poison m d) = search (call_rules, failed-IsSafe)

  pub Steps-kept : {w : World} {s : State} → Steps (state w []) s → P w → P s.world
  Steps-kept steps p = (Steps-All P part_of-IsSafe steps (p, tt)).0
