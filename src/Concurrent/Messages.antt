-- ===== src/Concurrent/Messages.antt =====
-- A message of the events topic by its calls: `processMessage` of internal/app/processor/processor.go and
-- `ProcessEvent.Execute` of internal/core/usecase/process_event.go; and one of the dead letter queue. Without an
-- interruption they are the handlers of Worker.
use event_observability_plat.Common.{
  ◌≡◌, ◌∙◌, refl, ap, String, not, ◌||◌, Bool-cases, inl, inr, Option, none, some, if◌then◌else◌,
  str_eq, leb_ℤ, pos, ◌+ℤ◌,
}
use event_observability_plat.Errors.{Err, is_not_found, Result, ok, err}
use event_observability_plat.Domain.{
  Event, EventMessage, processing, processed, failed, is_processed, is_failed,
}
use event_observability_plat.Mapper.{marshal_event_message, unmarshal_event_message}
use event_observability_plat.Runtime.{World, Machine, count, events_processed, events_failed}
use event_observability_plat.Storage.Events.{find_by_id, update_status, increment_retry}
use event_observability_plat.Storage.Analytics.{write_event}
use event_observability_plat.Messaging.{publish}
use event_observability_plat.Process.{
  ProcessEvent, Verdict, ProcessAction, done, retry, dlq, verdict, handle_failure, write_analytics,
  after_mark, after_find, execute,
}
use event_observability_plat.Worker.{
  Topics, Delivery, publish_value, publish_retry, publish_to_dlq, count_done, route,
  process_decoded, process_message, handle_parsed, handle_poison,
}
use event_observability_plat.Concurrent.{Task, finished, ◌>>=◌, ◌>>◌, once, write, run, run-bind}

module _ (m : Machine) (uc : ProcessEvent) where
  -- `handleFailure`
  unfoldable pub failure_task : EventMessage → Err → Task Verdict
  unfolding ◌>>=◌
  failure_task msg cause = do
    lost ← write m (λ m'. increment_retry m' msg.event_id)
    (if leb_ℤ uc.max_retries msg.attempt
        then (do
          lost ← write m (λ m'. update_status m' msg.event_id failed)
          finished (verdict dlq "" (some cause)))
        else finished (verdict retry "" (some cause)))

  unfoldable pub analytics_task : Event → Task (Unit {0})
  unfolding ◌>>=◌
  analytics_task e =
      if uc.analytics
      then (do lost ← write m (λ m'. write_event m' e); finished tt)
      else finished tt

  unfoldable pub marked_task : EventMessage → Event → Option Err → Task Verdict
  unfolding failure_task analytics_task
  marked_task msg e (some cause) = failure_task msg cause
  marked_task msg e none = do
    analytics_task e
    lost ← write m (λ m'. update_status m' e.id processed)
    finished (verdict done e.source none)

  unfoldable pub found_task : EventMessage → Result Event → Task Verdict
  unfolding marked_task
  found_task msg (err cause) =
      if is_not_found cause then finished (verdict done "" none) else failure_task msg cause
  found_task msg (ok e) =
      if is_processed e.status || is_failed e.status
      then finished (verdict done "" none)
      else do marked ← write m (λ m'. update_status m' e.id processing); marked_task msg e marked

  -- `ProcessEvent.Execute`
  unfoldable pub process_task : EventMessage → Task Verdict
  unfolding found_task
  process_task msg = do found ← once (find_by_id m msg.event_id); found_task msg found

module _ (m : Machine) (topics : Topics) where
  unfoldable pub publish_task : String → String → Result String → Task (Unit {0})
  unfolding ◌>>=◌
  publish_task topic key (err e) = finished tt
  publish_task topic key (ok value) = do
    lost ← write m (λ m'. publish m' topic key value)
    finished tt

  unfoldable pub done_task : String → Option Err → Task (Unit {0})
  done_task source (some e) = finished tt
  done_task source none =
      if not (str_eq source "")
      then once (count (events_processed source "processed"))
      else finished tt

  unfoldable pub route_task : ProcessAction → EventMessage → Verdict → Task (Unit {0})
  unfolding publish_task done_task
  route_task done msg v = done_task v.event_source v.error
  route_task retry msg v =
      publish_task topics.events msg.event_id
        (marshal_event_message (record { event_id = msg.event_id; attempt = msg.attempt +ℤ pos 1 }))
  route_task dlq msg v = do
    publish_task topics.dlq msg.event_id (marshal_event_message msg)
    once (count (events_failed "unknown" "max_retries_exceeded"))

module _ (m : Machine) (uc : ProcessEvent) (topics : Topics) where
  unfoldable pub parsed_task : Result EventMessage → Task (Unit {0})
  unfolding process_task route_task
  parsed_task (err e) = finished tt
  parsed_task (ok msg) = do v ← process_task m uc msg; route_task m topics v.action msg v

  -- `processMessage`
  unfoldable pub message_task : String → Task (Unit {0})
  unfolding parsed_task
  message_task value = parsed_task (unmarshal_event_message m.json_error value)

module _ (m : Machine) where
  unfoldable pub failed_task : Result EventMessage → Task (Unit {0})
  unfolding ◌>>=◌
  failed_task (err e) = finished tt
  failed_task (ok msg) = do lost ← write m (λ m'. update_status m' msg.event_id failed); finished tt

  -- The body of `DLQHandler.Run`
  unfoldable pub poison_task : Delivery → Task (Unit {0})
  unfolding failed_task
  poison_task d = failed_task (unmarshal_event_message m.json_error d.value)

module _ (m : Machine) (uc : ProcessEvent) where
  run-failure :
      (msg : EventMessage) (cause : Err) (w : World)
      → run (failure_task m uc msg cause) w ≡ handle_failure m uc msg cause w
  unfolding failure_task run handle_failure ◌>>=◌
  run-failure msg cause w = elim (Bool-cases (leb_ℤ uc.max_retries msg.attempt)) [
    | inl e ↦ rw e refl
    | inr e ↦ rw e refl
  ]

  run-analytics : (e : Event) (w : World) → run (analytics_task m uc e) w ≡ write_analytics m uc e w
  unfolding analytics_task run write_analytics ◌>>=◌
  run-analytics e w = elim (Bool-cases uc.analytics) [ inl b ↦ rw b refl | inr b ↦ rw b refl ]

  run-marked :
      (msg : EventMessage) (e : Event) (fault : Option Err) (w : World)
      → run (marked_task m uc msg e fault) w ≡ after_mark m uc msg e fault w
  unfolding marked_task run after_mark ◌>>=◌
  run-marked msg e (some cause) w = run-failure msg cause w
  run-marked msg e none w =
      let rest : Unit {0} → Task Verdict = λ _.
        write m (λ m'. update_status m' e.id processed) >>= λ lost.
        finished (verdict done e.source none) in
      run-bind (analytics_task m uc e) rest w
      ∙ ap (λ (out : Unit {0} × World). run (rest out.0) out.1) (run-analytics e w)

  run-found :
      (msg : EventMessage) (found : Result Event) (w : World)
      → run (found_task m uc msg found) w ≡ after_find m uc msg found w
  unfolding found_task run after_find ◌>>=◌
  run-found msg (err cause) w = elim (Bool-cases (is_not_found cause)) [
    | inl e ↦ rw e refl
    | inr e ↦ rw e (run-failure msg cause w)
  ]
  run-found msg (ok e) w = elim (Bool-cases (is_processed e.status || is_failed e.status)) [
    | inl b ↦ rw b refl
    | inr b ↦ rw b (run-marked msg e _ _)
  ]

  run-process :
      (msg : EventMessage) (w : World) → run (process_task m uc msg) w ≡ execute m uc msg w
  unfolding process_task run execute ◌>>=◌
  run-process msg w = run-found msg _ _

module _ (m : Machine) (topics : Topics) where
  run-publish :
      (topic key : String) (v : Result String) (w : World)
      → run (publish_task m topics topic key v) w ≡ publish_value m topics topic key v w
  unfolding publish_task run publish_value ◌>>=◌
  run-publish topic key (ok value) w = refl
  run-publish topic key (err e) w = refl

  run-done :
      (source : String) (e : Option Err) (w : World)
      → run (done_task m topics source e) w ≡ count_done m topics source e w
  unfolding done_task run count_done
  run-done source (some e) w = refl
  run-done source none w = elim (Bool-cases (str_eq source "")) [
    | inl b ↦ rw b refl
    | inr b ↦ rw b refl
  ]

  run-route :
      (a : ProcessAction) (msg : EventMessage) (v : Verdict) (w : World)
      → run (route_task m topics a msg v) w ≡ route m topics a msg v w
  unfolding route_task run route publish_retry publish_to_dlq
  run-route done msg v w = run-done v.event_source v.error w
  run-route retry msg v w = run-publish topics.events msg.event_id _ w
  run-route dlq msg v w =
      let counted : Unit {0} → Task (Unit {0}) =
        λ _. once (count (events_failed "unknown" "max_retries_exceeded")) in
      run-bind (publish_task m topics topics.dlq msg.event_id (marshal_event_message msg)) counted w
      ∙ ap (λ (out : Unit {0} × World). run (counted out.0) out.1)
          (run-publish topics.dlq msg.event_id (marshal_event_message msg) w)

module _ (m : Machine) (uc : ProcessEvent) (topics : Topics) where
  run-parsed :
      (r : Result EventMessage) (w : World)
      → run (parsed_task m uc topics r) w ≡ process_decoded m uc topics r w
  unfolding parsed_task run process_decoded
  run-parsed (err e) w = refl
  run-parsed (ok msg) w =
      run-bind (process_task m uc msg) (λ v. route_task m topics v.action msg v) w
      ∙ (ap (λ (out : Verdict × World). run (route_task m topics out.0.action msg out.0) out.1)
            (run-process m uc msg w)
          ∙ run-route m topics _ msg _ _)

  -- A message that nothing interrupts is processed as the worker processes it.
  pub run-message :
      (value : String) (w : World)
      → run (message_task m uc topics value) w ≡ process_message m uc topics value w
  unfolding message_task process_message
  run-message value w = run-parsed (unmarshal_event_message m.json_error value) w

module _ (m : Machine) where
  run-failed : (r : Result EventMessage) (w : World) → run (failed_task m r) w ≡ handle_parsed m r w
  unfolding failed_task run handle_parsed ◌>>=◌
  run-failed (ok msg) w = refl
  run-failed (err e) w = refl

  -- A dead letter that nothing interrupts is handled as its handler does.
  pub run-poison : (d : Delivery) (w : World) → run (poison_task m d) w ≡ handle_poison m d w
  unfolding poison_task handle_poison
  run-poison d w = run-failed (unmarshal_event_message m.json_error d.value) w
