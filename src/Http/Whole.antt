-- ===== src/Http/Whole.antt =====
-- internal/app/http/http.go: the handler that `NewServer` hands to the server, the routes behind the middleware. What
-- otelhttp adds is the span of a request.
use Prim.Native.Char.{len_utf8}
use event_observability_plat.Common.{
  ℕ, ◌-◌, ◌≡◌, ◌≢◌, ◌⊎◌, refl, ap, ◌∙◌, String, false, Option, none, some, List, [], ◌∷◌,
  if◌then◌else◌, itoa, leb,
}
use event_observability_plat.Runtime.{World, Machine, http_requests}
use event_observability_plat.Messaging.Carrier.{set}
use event_observability_plat.Http.Webhook.{handle_event}
use event_observability_plat.Http.Middleware.{
  HttpRequest, Served, Handler, server_handler, first_status, add_count,
}
use event_observability_plat.Http.Middleware.Chained.{inner, server_handler_cases}
use event_observability_plat.Http.Server.{Server, Request, serve}
use event_observability_plat.Http.Server.Routing.{serve_cases}

-- What a reader of at most n bytes gives of a text.
unfoldable pub first_bytes : ℕ → String → String
first_bytes n String.[] = ""
first_bytes n (String.◌∷◌ c s) =
    let rest = first_bytes (n - len_utf8 c) s in
    if leb (len_utf8 c) n then String.◌∷◌ c rest else ""

-- `http.MaxBytesReader`, whose error at the limit ends the body for the decoder.
abbrev pub held_to : Option ℕ → String → String
held_to none body = body
held_to (some n) body = first_bytes n body

-- `TraceID().String()`, which is all zeros where there is no valid span.
abbrev pub trace_text : Option String → String
trace_text none = "00000000000000000000000000000000"
trace_text (some id) = id

-- What the handlers read of a request.
abbrev pub request_of : HttpRequest → Request
request_of r = record {
  method = r.method;
  path = r.path;
  incoming = record {
    content_type = r.content_type;
    body = held_to r.limit r.body;
    trace_id = trace_text r.span;
  };
  range = r.range;
}

unfoldable pub set_headers :
    List (String × String) → List (String × String) → List (String × String)
set_headers headers [] = headers
set_headers headers ((name, value) ∷ more) = set_headers (set headers name value) more

module _ (m : Machine) (srv : Server) where
  -- The mux with the handlers behind it.
  unfoldable pub routes : Handler
  unfolding set_headers
  routes r s =
      let (reply, w) = serve m srv (request_of r) s.world in
      record s {
        headers = set_headers s.headers reply.headers;
        status = first_status s.status reply.status;
        world = w;
      }

  -- The server's answer to a request, where `fresh` is what `uuid.NewString()` gives for an id of the request.
  unfoldable pub respond : String → HttpRequest → World → Served
  unfolding routes
  respond fresh r w =
      server_handler fresh routes r
        (record { headers = []; status = none; lines = []; world = w; panicked = false })

module _ (m : Machine) (srv : Server) (fresh : String) (r : HttpRequest) (w : World) where
  -- The request as the routes get it.
  abbrev pub seen : Request
  seen = request_of (inner fresh r)

  -- The server answers a request with the status that its route gives, and the state that it leaves is the one that the
  -- route leaves, with one more count of a request under the method, the path and that status. The route of a
  -- POST to /webhooks/events is the webhook handler, on the first 1 MiB of the body; any other changes neither
  -- the events nor the keys nor the queue.
  pub respond_cases :
      let out = serve m srv seen w in
      let served = respond m srv fresh r w in
      (served.panicked ≡ false)
      × (served.status ≡ some out.0.status)
      × (served.world ≡ add_count (http_requests r.method r.path (itoa out.0.status)) out.1)
      × (r.method ≡ "POST"
          → r.path ≡ "/webhooks/events"
          → out
            ≡ handle_event m srv.webhook
                (record {
                  content_type = r.content_type;
                  body = first_bytes 1048576 r.body;
                  trace_id = trace_text r.span;
                })
                w)
      × ((r.method ≢ "POST") ⊎ (r.path ≢ "/webhooks/events")
          → (served.world.events ≡ w.events)
            × (served.world.keys ≡ w.keys)
            × (served.world.sent ≡ w.sent))
  unfolding respond routes
  respond_cases =
      let empty : Served = record {
        headers = [];
        status = none;
        lines = [];
        world = w;
        panicked = false;
      } in
      let all = server_handler_cases fresh (routes m srv) r empty in
      let cases = serve_cases m srv seen w in
      let kept = all.1 refl in
      (
        all.3,
        (all.4 refl).1,
        kept,
        cases.0,
        λ other.
            let same = cases.1 other in
            (
              ap (λ (x : World). x.events) kept ∙ same.events,
              ap (λ (x : World). x.keys) kept ∙ same.keys,
              ap (λ (x : World). x.sent) kept ∙ same.sent,
            ),
      )
