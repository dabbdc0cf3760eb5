-- ===== src/System.antt =====
-- The server and the worker together: any number of requests, of messages of the events topic and
-- of messages of the dead letter queue, one after another in any order, each with what fails in it.
-- A message is handled whether or not it was queued, so repeated and reordered deliveries are covered.
pub mod Delivered
use event_observability_plat.Common.{String, []}
use event_observability_plat.Runtime.{World, Machine}
use event_observability_plat.Storage.Events.Invariant.{IsWellFormed}
use event_observability_plat.Process.{ProcessEvent}
use event_observability_plat.Worker.{Topics, Delivery, process_message, handle_poison}
use event_observability_plat.Worker.Invariant.{process_message-Keeps, handle_poison-Keeps}
use event_observability_plat.Http.Webhook.{WebhookHandler, Incoming, handle_event}
use event_observability_plat.Http.Webhook.Invariant.{handle-Keeps}

abbrev pub empty : World
empty = record { tick = 0; events = []; keys = []; log = []; sent = []; counts = [] }

pub data Step (w : World) : World → Type 0 where
  request : (m : Machine) (h : WebhookHandler) (r : Incoming) → Step w (handle_event m h r w).1
  message :
      (m : Machine) (uc : ProcessEvent) (topics : Topics) (value : String)
      → Step w (process_message m uc topics value w).1
  poison : (m : Machine) (d : Delivery) → Step w (handle_poison m d w).1

pub data Reach (s : World) : World → Type 0 where
  here : Reach s s
  next : {t u : World} → Reach s t → Step t u → Reach s u

Step-IsWellFormed : {w u : World} → Step w u → IsWellFormed w → IsWellFormed u
Step-IsWellFormed {w} (request m h r) f = (handle-Keeps m h r).at w f
Step-IsWellFormed {w} (message m uc topics value) f =
    (process_message-Keeps m uc topics value).at w f
Step-IsWellFormed {w} (poison m d) f = (handle_poison-Keeps m d).at w f

Reach-keeps : {s w : World} → IsWellFormed s → Reach s w → IsWellFormed w
Reach-keeps f here = f
Reach-keeps f (next r step) = Step-IsWellFormed step (Reach-keeps f r)

-- From empty tables, after any requests and messages in any order, whatever failed in them: a row has a
-- processing time exactly when its status is `processed`, no two rows have one id, and every
-- idempotency key refers to a stored event.
pub Reach-IsWellFormed : (w : World) → Reach empty w → IsWellFormed w
Reach-IsWellFormed w r = Reach-keeps (record { stamped = tt; distinct = tt; refers = tt }) r
