-- ===== src/Client.antt =====
-- The outbound client of internal/infra/outbound/httpclient/client.go.
-- What the network and the clock do in attempt k is `exchange k`; spans and log lines are left out.
mod Turns
pub mod Attempts
pub mod Guard
pub mod Blind
pub mod Results
use event_observability_plat.Common.{
  ℕ, zero, suc, String, Bool, true, false, not, ◌&&◌, Option, none, some, List, [], ◌∷◌, ◌++◌,
  if◌then◌else◌, ℤ, pos, negsuc, itoa, ◌^^◌,
}
use event_observability_plat.Errors.{
  Err, circuit_open, context_done, external, wrapped, Result, ok, err,
}
use event_observability_plat.Breaker.{
  BreakerConfig, default_breaker_config, CircuitBreaker, new_circuit_breaker, allow, record_success,
  record_failure,
}
use event_observability_plat.Retry.{Platform, retryable_status, backoff}

abbrev pub Headers : Type 0
Headers = List (String × String)

pub record Response : Type 0 where
  pub status_code : ℕ
  pub body : String
  pub headers : Headers

-- `Timeout` is handed to net/http, whose answer is part of the exchange.
pub record Config : Type 0 where
  pub base_url : String
  pub max_retries : ℤ
  pub default_headers : Headers
  pub breaker : BreakerConfig
  pub target : String

abbrev pub default_config : String → String → Config
default_config base_url target = record {
  base_url = base_url;
  max_retries = pos 3;
  default_headers = [];
  breaker = default_breaker_config;
  target = target;
}

-- `metrics` holds the increments of OutboundRequestsTotal (target, method, status), latest last;
-- it is `none` where the client was given no metrics.
pub record Client : Type 0 where
  pub base_url : String
  pub headers : Headers
  pub max_retries : ℤ
  pub breaker : CircuitBreaker
  pub metrics : Option (List (String × String × String))
  pub target : String

unfoldable pub new : Config → Option (List (String × String × String)) → ℤ → Client
new cfg m epoch = record {
  base_url = cfg.base_url;
  headers = cfg.default_headers;
  max_retries = cfg.max_retries;
  breaker = new_circuit_breaker cfg.breaker epoch;
  metrics = m;
  target = cfg.target;
}

-- A request as it goes on the wire.
pub record Request : Type 0 where
  pub method : String
  pub url : String
  pub headers : Headers
  pub body : Option String

-- What `http.Client.Do` and the reading of the body give.
pub data Answer : Type 0 where
  no_answer : String → Answer
  broken_body : String → Answer
  whole : Response → Answer

-- One attempt as the environment decides it: the end of the context while the client waits, the
-- clock in `Allow` and in `RecordFailure`, the refusal of the request by net/http, and the answer.
pub record Exchange : Type 0 where
  pub cancelled : Option String
  pub allow_clock : ℤ
  pub failure_clock : ℤ
  pub build_error : Option String
  pub answer : Answer

-- `propagated` are the headers that the trace propagator injects.
pub record Environment : Type 0 where
  pub platform : Platform
  pub propagated : Headers
  pub exchange : ℕ → Exchange

unfoldable pub read_answer : Answer → Result Response
read_answer (no_answer e) = err (external e)
read_answer (broken_body e) = err (wrapped "read response body" (external e))
read_answer (whole r) = ok r

-- The requests that were sent, and what `doOnce` returns.
unfoldable pub do_once : Environment → Exchange → Request → List Request × Result Response
unfolding read_answer
do_once env ex req = elim ex.build_error [
  | some e ↦ ([], err (wrapped "build request" (external e)))
  | none ↦ (req ∷ [], read_answer ex.answer)
]

-- How the loop of `Do` is left: by `break`, by a `return` inside it (the breaker refused, or the
-- context ended with that error), or by a panic.
pub data Exit : Type 0 where
  broke : Result Response → Exit
  refused : Exit
  stopped : String → Exit
  panicked : Exit

-- The part of the loop's body behind `doOnce`; `none` is `continue`.
unfoldable pub settle : Bool → ℤ → CircuitBreaker → Result Response → CircuitBreaker × Option Exit
settle last now cb (err e) = (record_failure cb now, if last then some (broke (err e)) else none)
settle last now cb (ok r) =
    if retryable_status r.status_code && not last
    then (record_failure cb now, none)
    else (record_success cb, some (broke (ok r)))

abbrev pub Turn : Type 0
Turn = CircuitBreaker × List Request × Option Exit

-- The loop's body from `Allow` on.
unfoldable pub enter : Environment → Exchange → Request → Bool → CircuitBreaker → Turn
enter env ex req last cb =
    let (asked, admitted) = allow cb ex.allow_clock in
    let (sent, result) = do_once env ex req in
    let (settled, exit) = settle last ex.failure_clock asked result in
    if admitted then (settled, sent, exit) else (asked, [], some refused)

-- The loop's body, with the wait that precedes every attempt but the first.
unfoldable pub turn : Environment → Request → Bool → ℕ → CircuitBreaker → Turn
turn env req last zero cb = enter env (env.exchange zero) req last cb
turn env req last (suc n) cb = elim (backoff env.platform n n) [
  | none ↦ (cb, [], some panicked)
  | some delay ↦ elim (env.exchange (suc n)).cancelled [
    | some e ↦ (cb, [], some (stopped e))
    | none ↦ enter env (env.exchange (suc n)) req last cb
  ]
]

-- `for attempt := …; attempt <= c.maxRetries; attempt++`, with `left` = maxRetries - attempt.
unfoldable pub loop : Environment → Request → ℕ → ℕ → CircuitBreaker → Turn
loop env req zero attempt cb = turn env req true attempt cb
loop env req (suc left) attempt cb =
    let (cb', sent, exit) = turn env req false attempt cb in
    let rest = loop env req left (suc attempt) cb' in
    elim exit [ some e ↦ (cb', sent, some e) | none ↦ (rest.0, sent ++ rest.1, rest.2) ]

unfoldable pub record_metric : Client → String → String → Client
record_metric c method status = elim c.metrics [
  | none ↦ c
  | some m ↦ record c { metrics = some (m ++ (c.target, method, status) ∷ []) }
]

pub data Outcome : Type 0 where
  response : Response → Outcome
  failed : Err → Outcome
  panic : Outcome

-- What `Do` does behind its loop. A loop that was never entered leaves `resp` nil, and reading
-- its status panics.
unfoldable pub conclude : Client → String → String → Option Exit → Client × Outcome
unfolding record_metric
conclude c method url (some (broke (ok r))) =
    (record_metric c method (itoa r.status_code), response r)
conclude c method url (some (broke (err e))) =
    (record_metric c method "error", failed (wrapped ("http client " ^^ method ^^ " " ^^ url) e))
conclude c method url (some refused) = (c, failed circuit_open)
conclude c method url (some (stopped e)) = (c, failed (context_done e))
conclude c method url (some panicked) = (c, panic)
conclude c method url none = (c, panic)

unfoldable pub start : Environment → Request → ℤ → CircuitBreaker → Turn
start env req (pos n) cb = loop env req n 0 cb
start env req (negsuc n) cb = (cb, [], none)

abbrev pub request_of : Environment → Client → String → String → Option String → Request
request_of env c method path body = record {
  method = method;
  url = c.base_url ^^ path;
  headers = c.headers ++ env.propagated;
  body = body;
}

-- `Do`: the client afterwards, the requests sent, and what it returns.
unfoldable pub perform :
    Environment → Client → String → String → Option String → Client × List Request × Outcome
perform env c method path body =
    let req = request_of env c method path body in
    let (cb, sent, exit) = start env req c.max_retries c.breaker in
    let (c', outcome) = conclude (record c { breaker = cb }) method req.url exit in
    (c', sent, outcome)
