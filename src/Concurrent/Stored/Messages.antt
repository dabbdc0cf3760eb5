-- ===== src/Concurrent/Stored/Messages.antt =====
-- A message about a stored event leads to messages about that event alone.
use event_observability_plat.Common.{◌≡◌, refl, String, Option, none, some}
use event_observability_plat.Errors.{Err, Result, ok, err}
use event_observability_plat.Domain.{Event, EventMessage}
use event_observability_plat.Mapper.{unmarshal_event_message}
use event_observability_plat.Runtime.{World, Machine}
use event_observability_plat.Process.{ProcessEvent, Verdict, ProcessAction, done, retry, dlq}
use event_observability_plat.Worker.{Topics, Delivery}
use event_observability_plat.Worker.Retries.{retry_of}
use event_observability_plat.Concurrent.Messages.{
  failure_task, analytics_task, marked_task, found_task, process_task, publish_task, done_task,
  route_task, parsed_task, message_task, failed_task, poison_task,
}
use event_observability_plat.Concurrent.Stored.{
  IsAbout, marshal-IsAbout, IsStored, IsSafeFrom, Anything, then-IsSafeFrom,
}
use event_observability_plat.Concurrent.Stored.Calls.{safe_from_rules}

module _ (m : Machine) (uc : ProcessEvent) where
  failure-IsSafeFrom :
      (msg : EventMessage) (cause : Err) (w : World)
      → IsSafeFrom Anything w (failure_task m uc msg cause)
  unfolding failure_task
  failure-IsSafeFrom msg cause w = search safe_from_rules

  analytics-IsSafeFrom : (e : Event) (w : World) → IsSafeFrom Anything w (analytics_task m uc e)
  unfolding analytics_task
  analytics-IsSafeFrom e w = search safe_from_rules

  marked-IsSafeFrom :
      (msg : EventMessage) (e : Event) (fault : Option Err) (w : World)
      → IsSafeFrom Anything w (marked_task m uc msg e fault)
  unfolding marked_task
  marked-IsSafeFrom msg e (some cause) w = failure-IsSafeFrom msg cause w
  marked-IsSafeFrom msg e none w = search (safe_from_rules, analytics-IsSafeFrom, then-IsSafeFrom)

  found-IsSafeFrom :
      (msg : EventMessage) (found : Result Event) (w : World)
      → IsSafeFrom Anything w (found_task m uc msg found)
  unfolding found_task
  found-IsSafeFrom msg (err cause) w = search (safe_from_rules, failure-IsSafeFrom)
  found-IsSafeFrom msg (ok e) w = search (safe_from_rules, marked-IsSafeFrom)

  process-IsSafeFrom :
      (msg : EventMessage) (w : World) → IsSafeFrom Anything w (process_task m uc msg)
  unfolding process_task
  process-IsSafeFrom msg w = search (safe_from_rules, found-IsSafeFrom)

module _ (m : Machine) (topics : Topics) where
  publish-IsSafeFrom :
      (topic key : String) (v : Result String) (w : World)
      → IsStored w key
      → ((value : String) → v ≡ ok value → IsAbout key value)
      → IsSafeFrom Anything w (publish_task m topics topic key v)
  unfolding publish_task
  publish-IsSafeFrom topic key (ok value) w stored about =
      let fits = about value refl in search safe_from_rules
  publish-IsSafeFrom topic key (err e) w stored about = search safe_from_rules

  done-IsSafeFrom :
      (source : String) (e : Option Err) (w : World)
      → IsSafeFrom Anything w (done_task m topics source e)
  unfolding done_task
  done-IsSafeFrom source none w = search safe_from_rules
  done-IsSafeFrom source (some e) w = search safe_from_rules

  route-IsSafeFrom :
      (a : ProcessAction) (msg : EventMessage) (v : Verdict) (w : World)
      → IsStored w msg.event_id
      → IsSafeFrom Anything w (route_task m topics a msg v)
  unfolding route_task
  route-IsSafeFrom done msg v w stored = done-IsSafeFrom v.event_source v.error w
  route-IsSafeFrom retry msg v w stored =
      publish-IsSafeFrom topics.events msg.event_id _ w stored (marshal-IsAbout (retry_of msg))
  route-IsSafeFrom dlq msg v w stored =
      let sends = publish-IsSafeFrom topics.dlq msg.event_id _ w stored (marshal-IsAbout msg) in
      search (safe_from_rules, sends, then-IsSafeFrom)

module _ (m : Machine) where
  parsed-IsSafeFrom :
      (uc : ProcessEvent) (topics : Topics) (r : Result EventMessage) (w : World)
      → ((msg : EventMessage) → r ≡ ok msg → IsStored w msg.event_id)
      → IsSafeFrom Anything w (parsed_task m uc topics r)
  unfolding parsed_task
  parsed-IsSafeFrom uc topics (ok msg) w about =
      then-IsSafeFrom Anything (process_task m uc msg) (λ v. route_task m topics v.action msg v) w
        (process-IsSafeFrom m uc msg w)
        (λ w' v stays.
          route-IsSafeFrom m topics v.action msg v w' (stays msg.event_id (about msg refl)))
  parsed-IsSafeFrom uc topics (err e) w about = search safe_from_rules

  pub message-IsSafeFrom :
      (uc : ProcessEvent) (topics : Topics) (value : String) (w : World)
      → ((msg : EventMessage)
          → unmarshal_event_message m.json_error value ≡ ok msg
          → IsStored w msg.event_id)
      → IsSafeFrom Anything w (message_task m uc topics value)
  unfolding message_task
  message-IsSafeFrom uc topics value w about =
      parsed-IsSafeFrom uc topics (unmarshal_event_message m.json_error value) w about

  failed-IsSafeFrom :
      (r : Result EventMessage) (w : World) → IsSafeFrom Anything w (failed_task m r)
  unfolding failed_task
  failed-IsSafeFrom (ok msg) w = search safe_from_rules
  failed-IsSafeFrom (err e) w = search safe_from_rules

  pub poison-IsSafeFrom : (d : Delivery) (w : World) → IsSafeFrom Anything w (poison_task m d)
  unfolding poison_task
  poison-IsSafeFrom d w = failed-IsSafeFrom (unmarshal_event_message m.json_error d.value) w
