-- ===== src/Concurrent/Steps.antt =====
-- Any number of requests and messages under way at once: one begins, one makes its next call, one is given an error
-- though its call has taken place, or one is given up where it stands, as when its process ends.
use event_observability_plat.Common.{String, Option, none, some, List, [], ◌∷◌, ◌++◌}
use event_observability_plat.Errors.{Err}
use event_observability_plat.Runtime.{World, Machine, M}
use event_observability_plat.Process.{ProcessEvent}
use event_observability_plat.Worker.{Topics, Delivery}
use event_observability_plat.Http.{Reply}
use event_observability_plat.Http.Webhook.{WebhookHandler, Incoming}
use event_observability_plat.Concurrent.{Task, finished, doing, writing, ◌>>=◌, ◌>>◌}
use event_observability_plat.Concurrent.Requests.{request_task}
use event_observability_plat.Concurrent.Messages.{message_task, poison_task}

-- What comes in, with what fails in it. A message need not be in the queue, so that repeated deliveries are
-- covered.
pub data Job : Type 0 where
  request : Machine → WebhookHandler → Incoming → Job
  message : Machine → ProcessEvent → Topics → String → Job
  poison : Machine → Delivery → Job

-- A task of the system ends with the reply of a request, or with none.
abbrev pub Part : Type 1
Part = Task (Option Reply)

unfoldable pub part_of : Job → Part
unfolding ◌>>=◌
part_of (request m h r) = request_task m h r >>= λ reply. finished (some reply)
part_of (message m uc topics value) = do message_task m uc topics value; finished none
part_of (poison m d) = do poison_task m d; finished none

pub record State : Type 1 where
  pub world : World
  pub parts : List Part

abbrev pub state : World → List Part → State
state w parts = record { world = w; parts = parts }

pub data Step : State → State → Type 1 where
  begins :
      (job : Job) (w : World) (parts : List Part)
      → Step (state w parts) (state w (parts ++ part_of job ∷ []))
  calls :
      {B : Type 0} (c : M B) (k : B → Part) (w : World) (before after : List Part)
      → Step (state w (before ++ doing c k ∷ after)) (state (c w).1 (before ++ k (c w).0 ∷ after))
  writes :
      (c c' : M (Option Err)) (k : Option Err → Part) (w : World) (before after : List Part)
      → Step
          (state w (before ++ writing c c' k ∷ after))
          (state (c w).1 (before ++ k (c w).0 ∷ after))
  unheard :
      (c c' : M (Option Err)) (k : Option Err → Part) (e : Err) (w : World)
      (before after : List Part)
      → Step
          (state w (before ++ writing c c' k ∷ after))
          (state (c' w).1 (before ++ k (some e) ∷ after))
  stops :
      (part : Part) (w : World) (before after : List Part)
      → Step (state w (before ++ part ∷ after)) (state w (before ++ after))

pub data Steps (s : State) : State → Type 1 where
  here : Steps s s
  next : {t u : State} → Steps s t → Step t u → Steps s u
