-- ===== src/Concurrent/Alone.antt =====
-- A request or message that runs alone.
use mathlib.Core.Path.{subst}
use event_observability_plat.Common.{◌≡◌, [], ◌∷◌, ap, ◌∙◌, Option, none, some}
use event_observability_plat.Runtime.{World, M, ◌>>=◌, ◌>>◌, pure}
use event_observability_plat.Worker.{process_message, handle_poison}
use event_observability_plat.Http.{Reply}
use event_observability_plat.Http.Webhook.{handle_event}
use event_observability_plat.Concurrent.{finished, run, run-bind}
use event_observability_plat.Concurrent.Requests.{request_task, run-request}
use event_observability_plat.Concurrent.Messages.{
  message_task, poison_task, run-message, run-poison,
}
use event_observability_plat.Concurrent.Steps.{
  Job, request, message, poison, part_of, state, Steps, here, next, begins,
}
use event_observability_plat.Concurrent.Race.{Steps-run}

-- A job as the handlers of Http.Webhook and Worker do it.
unfoldable pub handle : Job → M (Option Reply)
handle (request m h r) = do reply ← handle_event m h r; pure (some reply)
handle (message m uc topics value) = do process_message m uc topics value; pure none
handle (poison m d) = do handle_poison m d; pure none

run-part_of : (job : Job) (w : World) → run (part_of job) w ≡ handle job w
unfolding part_of handle run
run-part_of (request m h r) w =
    run-bind (request_task m h r) (λ reply. finished (some reply)) w
    ∙ ap (λ (out : Reply × World). (some out.0, out.1)) (run-request m h r w)
run-part_of (message m uc topics value) w =
    run-bind (message_task m uc topics value) (λ _. finished none) w
    ∙ ap (λ (out : Unit {0} × World). (none, out.1)) (run-message m uc topics value w)
run-part_of (poison m d) w =
    run-bind (poison_task m d) (λ _. finished none) w
    ∙ ap (λ (out : Unit {0} × World). (none, out.1)) (run-poison m d w)

-- Cutting a job at its calls changes nothing: run without an interruption it is what the handlers make of it, and the
-- state and the reply that these give are reached by its steps.
pub run-handle :
    (job : Job) (w : World)
    → (run (part_of job) w ≡ handle job w)
      × Steps (state w []) (state (handle job w).1 (finished (handle job w).0 ∷ []))
run-handle job w =
    let same = run-part_of job w in
    let begun : Steps (state w []) (state w (part_of job ∷ [])) = next here (begins job w []) in
    (
      same,
      subst (λ (out : Option Reply × World). Steps (state w []) (state out.1 (finished out.0 ∷ [])))
          same (Steps-run (part_of job) w [] [] begun),
    )
