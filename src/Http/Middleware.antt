-- ===== src/Http/Middleware.antt =====
-- internal/app/http/middleware/middleware.go with internal/platform/logger/logger.go, and the chain
-- that internal/app/http/http.go builds. Latency, stack traces and the routing are left out.
pub mod Chained
use event_observability_plat.Common.{
  ℕ, ◌+◌, String, Bool, true, false, str_eq, Option, none, some, List, [], ◌∷◌, ◌++◌, if◌then◌else◌,
  itoa,
}
use event_observability_plat.Runtime.{World, Count, http_requests}
use event_observability_plat.Http.Analytics.{DateRange}
use event_observability_plat.Messaging.Carrier.{set}
use event_observability_plat.Http.{Body, raw, Reply}

-- What the logger keeps in a context; the empty text is an absent value.
pub record Context : Type 0 where
  pub request_id : String
  pub trace_id : String

-- A request, as far as it is read. `span` is the trace id of a valid span, `limit` the number of bytes to which the
-- body is held, and `range` the query parameters of /analytics/daily-events.
pub record HttpRequest : Type 0 where
  pub method : String
  pub path : String
  pub content_type : String
  pub body : String
  pub range : DateRange
  pub request_header : String  -- X-Request-ID
  pub span : Option String
  pub context : Context
  pub limit : Option ℕ

-- A line of the log: its message and the fields that the context gives it.
pub record Line : Type 0 where
  pub text : String
  pub fields : List (String × String)

-- What a handler leaves behind: the headers and the status that were written, the log, and the state that the
-- server shares with the worker. A panic that was not recovered is `panicked`. `status` is `none` as long as no
-- header was written, and a handler writes it once at most.
pub record Served : Type 0 where
  pub headers : List (String × String)
  pub status : Option ℕ
  pub lines : List Line
  pub world : World
  pub panicked : Bool

abbrev pub Handler : Type 0
Handler = HttpRequest → Served → Served

abbrev pub field_if : String → String → List (String × String)
field_if name value = if str_eq value "" then [] else (name, value) ∷ []

-- `Fields`, which `FromContext` adds to every line.
unfoldable pub fields : Context → List (String × String)
fields ctx = field_if "request_id" ctx.request_id ++ field_if "trace_id" ctx.trace_id

-- `WithRequestID` and `WithTraceID`
unfoldable pub with_request_id : Context → String → Context
with_request_id ctx id = record ctx { request_id = id }

unfoldable pub with_trace_id : Context → String → Context
with_trace_id ctx id = record ctx { trace_id = id }

-- `Chain`: the first middleware is the outermost.
unfoldable pub chain : Handler → List (Handler → Handler) → Handler
chain h [] = h
chain h (f ∷ rest) = f (chain h rest)

-- `RequestID`; `fresh` is what `uuid.NewString()` gives.
unfoldable pub request_id : String → Handler → Handler
request_id fresh next r s =
    let id = if str_eq r.request_header "" then fresh else r.request_header in
    next (record r { context = with_request_id r.context id })
      (record s { headers = set s.headers "X-Request-ID" id })

abbrev pub written : Option ℕ → ℕ
written none = 200
written (some status) = status

abbrev pub traced : HttpRequest → Context
traced r = elim r.span [ none ↦ r.context | some id ↦ with_trace_id r.context id ]

abbrev pub add_count : Count → World → World
add_count c w = record w { counts = w.counts ++ c ∷ [] }

-- `Logger`, given metrics: one line and one increment after the handler, unless it panicked.
unfoldable pub request_logger : Handler → Handler
request_logger next r s =
    let ctx = traced r in
    let s' = next (record r { context = ctx }) s in
    if s'.panicked then s' else record s' {
      lines = s'.lines ++ record { text = "request"; fields = fields ctx } ∷ [];
      world = add_count (http_requests r.method r.path (itoa (written s'.status))) s'.world;
    }

abbrev pub first_status : Option ℕ → ℕ → Option ℕ
first_status none status = some status
first_status (some earlier) status = some earlier

-- The headers that `Recover` and then `http.Error`, which overwrites the first of them, set; they have
-- no effect behind a status that was written.
unfoldable pub error_headers : Option ℕ → List (String × String) → List (String × String)
error_headers none headers =
    set
      (set (set headers "Content-Type" "application/json") "Content-Type"
        "text/plain; charset=utf-8")
      "X-Content-Type-Options" "nosniff"
error_headers (some status) headers = headers

-- `Recover`; a status that was written stays.
unfoldable pub recover : Handler → Handler
recover next r s =
    let s' = next r s in
    if s'.panicked
    then record s' {
      headers = error_headers s'.status s'.headers;
      status = first_status s'.status 500;
      lines = s'.lines ++ record { text = "panic recovered"; fields = fields r.context } ∷ [];
      panicked = false;
    }
    else s'

-- `MaxBodySize`
unfoldable pub max_body_size : ℕ → Handler → Handler
max_body_size n next r s = next (record r { limit = some n }) s

-- The handler that `NewServer` builds around the routes, with 1 << 20 bytes as the limit.
unfoldable pub server_handler : String → Handler → Handler
server_handler fresh routes =
    chain routes (recover ∷ request_logger ∷ request_id fresh ∷ max_body_size 1048576 ∷ [])
