-- ===== src/Tests/Machines.antt =====
-- The machines, the parts and the data at which the server and the worker are run.
use event_observability_plat.Common.{
  ℕ, ◌+◌, String, true, Option, none, some, [], ◌∷◌, if◌then◌else◌, pos, ltb,
}
use event_observability_plat.Domain.{Entry}
use event_observability_plat.Runtime.{World, Machine}
use event_observability_plat.Process.{ProcessEvent}
use event_observability_plat.Worker.{Topics}
use event_observability_plat.Http.Webhook.{WebhookHandler, WebhookRequest, Incoming}
use event_observability_plat.System.{empty}

-- A machine on which the calls at the ticks with a text fail; the first ids are "id-1".
abbrev pub machine : (ℕ → Option String) → Machine
machine fault = record {
  fault = fault;
  clock = λ k. pos (k + 100);
  uuid = λ k. if ltb k 5 then "id-1" else "id-2";
  json_error = λ s. "invalid JSON";
  propagated = ("traceparent", "00-1") ∷ [];
}

abbrev pub sound : Machine
sound = machine (λ k. none)

abbrev pub fails_at : ℕ → Machine
fails_at n = machine (λ k. if ltb k n then none else if ltb n k then none else some "refused")

abbrev pub handler : WebhookHandler
handler = record {
  ingest = record { publisher = true; topic = "events" };
  idem_ttl = pos 1000;
  jsonb = λ s. s;
}

abbrev pub body : WebhookRequest
body = record { idempotency_key = "k"; source = "shop"; event_type = "sale"; payload = "{}" }

-- That request as JSON, with a member that the program does not know and a key in other letters.
abbrev pub body_text : String
body_text =
    "{\"Idempotency_Key\":\"k\", \"source\":\"shop\",\"event_type\":\"s\\u0061le\",\"n\":[1.5e3,{}],\"payload\": {}}"

abbrev pub incoming : Incoming
incoming = record { content_type = "application/json"; body = body_text; trace_id = "t" }

-- The message of the first attempt at the event "id-1".
abbrev pub first_text : String
first_text = "{\"event_id\":\"id-1\",\"attempt\":1}"

abbrev pub worker : ProcessEvent
worker = record { analytics = true; max_retries = pos 3 }

abbrev pub topics : Topics
topics = record { events = "events"; dlq = "events.dlq" }

-- A table in which the key "k" has an entry that expired long ago.
abbrev pub old : Entry
old = record { event_id = "id-0"; response = "{}"; expires_at = pos 7 }

abbrev pub stale : World
stale = record empty { keys = ("k", old) ∷ [] }
