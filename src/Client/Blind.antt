-- ===== src/Client/Blind.antt =====
-- The breaker against a server that answers every request with a retryable status: the last attempt
-- of `Do` records a success, which clears the failures that the attempts before it recorded.
use event_observability_plat.Common.{
  ℕ, zero, suc, ◌+◌, ◌≤◌, ◌<◌, ◌≡◌, refl, arith, ap, ◌∙◌, ℤ, pos, ◌<ℤ◌, String, Bool, true, false,
  Option, none, some, List, [], ◌∷◌, length,
}
use event_observability_plat.Errors.{ok}
use event_observability_plat.Breaker.{closed, CircuitBreaker, allow, record_success, record_failure}
use event_observability_plat.Retry.{retryable_status, backoff}
use event_observability_plat.Client.{
  Client, Environment, Request, Response, broke, response, enter, turn, loop, start, settle,
  do_once, conclude, perform, whole, request_of,
}

-- Every request of a call with n retries is answered with a retryable status; none of its waits is cut short, and
-- each draws a delay.
pub record Outage (n : ℕ) (env : Environment) : Type 0 where
  pub reply : ℕ → Response
  pub built : (k : ℕ) → k ≤ n → (env.exchange k).build_error ≡ none
  pub answered : (k : ℕ) → k ≤ n → (env.exchange k).answer ≡ whole (reply k)
  pub retryable : (k : ℕ) → k ≤ n → retryable_status (reply k).status_code ≡ true
  pub live : (k : ℕ) → k ≤ n → (env.exchange k).cancelled ≡ none
  pub delay : ℕ → ℕ
  pub drawn : (k : ℕ) → k < n → backoff env.platform k k ≡ some (delay k)

allow-closed : (cb : CircuitBreaker) (now : ℤ) → cb.state ≡ closed → allow cb now ≡ (cb, true)
unfolding allow
allow-closed cb now s = ground arith

-- A breaker that is closed and has counted f failures.
record IsClosedAt (f : ℕ) (m : ℤ) (cb : CircuitBreaker) : Type 0 where
  shut : cb.state ≡ closed
  count : cb.failures ≡ f
  limit : cb.cfg.max_failures ≡ m

failure-IsClosedAt :
    (f : ℕ) (m : ℤ) (cb : CircuitBreaker) (now : ℤ)
    → pos (suc f) <ℤ m
    → IsClosedAt f m cb
    → IsClosedAt (suc f) m (record_failure cb now)
unfolding record_failure
failure-IsClosedAt f m cb now h c = ground arith

success-IsClosedAt :
    (f : ℕ) (m : ℤ) (cb : CircuitBreaker) → IsClosedAt f m cb → IsClosedAt 0 m (record_success cb)
unfolding record_success
success-IsClosedAt f m cb c = ground arith

module _ (n : ℕ) (env : Environment) (o : Outage n env) (req : Request) where
  do_once_answered : (k : ℕ) → k ≤ n → do_once env (env.exchange k) req ≡ (req ∷ [], ok (o.reply k))
  unfolding do_once
  do_once_answered k u = ground (arith, o.built k u, o.answered k u)

  enter_again :
      (k : ℕ) (cb : CircuitBreaker)
      → k ≤ n
      → cb.state ≡ closed
      → enter env (env.exchange k) req false cb
        ≡ (record_failure cb (env.exchange k).failure_clock, req ∷ [], none)
  unfolding enter settle
  enter_again k cb u s =
      ground (
        arith,
        allow-closed cb (env.exchange k).allow_clock s,
        do_once_answered k u,
        o.retryable k u,
      )

  enter_last :
      (k : ℕ) (cb : CircuitBreaker)
      → k ≤ n
      → cb.state ≡ closed
      → enter env (env.exchange k) req true cb
        ≡ (record_success cb, req ∷ [], some (broke (ok (o.reply k))))
  unfolding enter settle
  enter_last k cb u s =
      ground (
        arith,
        allow-closed cb (env.exchange k).allow_clock s,
        do_once_answered k u,
        o.retryable k u,
      )

  turn-enter :
      (last : Bool) (k : ℕ) (cb : CircuitBreaker)
      → k ≤ n
      → turn env req last k cb ≡ enter env (env.exchange k) req last cb
  unfolding turn
  turn-enter last zero cb u = refl
  turn-enter last (suc k) cb u = ground (arith, o.drawn k (omega arith), o.live (suc k) u)

  -- How the loop ends when it starts at attempt k with `left` more to come.
  record Ends (left k : ℕ) (m : ℤ) (cb : CircuitBreaker) : Type 0 where
    breaker : IsClosedAt 0 m (loop env req left k cb).0
    sent : length (loop env req left k cb).1 ≡ suc left
    exit : (loop env req left k cb).2 ≡ some (broke (ok (o.reply (k + left))))

  turn_again :
      (k : ℕ) (cb : CircuitBreaker)
      → k ≤ n
      → cb.state ≡ closed
      → turn env req false k cb ≡ (record_failure cb (env.exchange k).failure_clock, req ∷ [], none)
  turn_again k cb u s = turn-enter false k cb u ∙ enter_again k cb u s

  turn_last :
      (k : ℕ) (cb : CircuitBreaker)
      → k ≤ n
      → cb.state ≡ closed
      → turn env req true k cb ≡ (record_success cb, req ∷ [], some (broke (ok (o.reply k))))
  turn_last k cb u s = turn-enter true k cb u ∙ enter_last k cb u s

  loop-suc :
      (left k : ℕ) (cb : CircuitBreaker)
      → k ≤ n
      → cb.state ≡ closed
      → let rest = loop env req left (suc k) (record_failure cb (env.exchange k).failure_clock) in
        loop env req (suc left) k cb ≡ (rest.0, req ∷ rest.1, rest.2)
  unfolding loop
  loop-suc left k cb u s = ground (arith, turn_again k cb u s)

  loop-Ends :
      (left k f : ℕ) (m : ℤ) (cb : CircuitBreaker)
      → k + left ≤ n
      → pos (f + left) <ℤ m
      → IsClosedAt f m cb
      → Ends left k m cb
  unfolding loop
  loop-Ends zero k f m cb u h c =
      let e = turn_last k cb (omega arith) c.shut in
      let k' : k + 0 ≡ k = omega arith in
      record { breaker = rw e (success-IsClosedAt f m cb c); sent = rw e; exit = rw (e, k') }
  loop-Ends (suc left) k f m cb u h c =
      let e = loop-suc left k cb (omega arith) c.shut in
      let cb' = record_failure cb (env.exchange k).failure_clock in
      let c' = failure-IsClosedAt f m cb (env.exchange k).failure_clock (omega arith) c in
      let rest = loop-Ends left (suc k) (suc f) m cb' (omega arith) (omega arith) c' in
      let k' : suc k + left ≡ k + suc left = omega arith in
      record {
        breaker = rw e rest.breaker;
        sent = rw e (ap suc rest.sent);
        exit = rw (e, ← k') rest.exit;
      }

-- A client that is about to call: retries, and a closed breaker with no failure counted.
record IsReady (n : ℕ) (m : ℤ) (c : Client) : Type 0 where
  retries : c.max_retries ≡ pos n
  breaker : IsClosedAt 0 m c.breaker

module _ (n : ℕ) (env : Environment) (o : Outage n env) (c : Client) (method path : String)
    (body : Option String) (m : ℤ) (fits : pos n <ℤ m) (ready : IsReady n m c) where
  start-Ends : Ends n env o (request_of env c method path body) n 0 m c.breaker
  start-Ends =
      loop-Ends n env o (request_of env c method path body) n 0 0 m c.breaker (omega arith)
        (omega arith) ready.breaker

  perform-IsReady : IsReady n m (perform env c method path body).0
  unfolding perform start conclude
  perform-IsReady = ground (
    arith, ready.retries, start-Ends.exit, start-Ends.breaker.shut, start-Ends.breaker.count,
    start-Ends.breaker.limit,
  )

  perform_last :
      (length (perform env c method path body).1 ≡ suc n)
      × ((perform env c method path body).2 ≡ response (o.reply n))
  unfolding perform start conclude
  perform_last = ground (arith, ready.retries, start-Ends.exit, start-Ends.sent)

-- Where each answer to a call has a retryable status and none of its waits is cut short or panics, a closed breaker with no failure
-- counted and 0 ≤ `MaxRetries` < `MaxFailures`: `Do` sends `MaxRetries` + 1 requests, returns the last response
-- as its result, and leaves the breaker closed with no failure counted.
pub outage_clears :
    (n : ℕ) (env : Environment) (o : Outage n env) (c : Client) (method path : String)
    (body : Option String)
    → c.max_retries ≡ pos n
    → pos n <ℤ c.breaker.cfg.max_failures
    → c.breaker.state ≡ closed
    → c.breaker.failures ≡ 0
    → let after = perform env c method path body in
      (after.0.breaker.state ≡ closed)
      × (after.0.breaker.failures ≡ 0)
      × (length after.1 ≡ suc n)
      × (after.2 ≡ response (o.reply n))
outage_clears n env o c method path body e h s z =
    let m = c.breaker.cfg.max_failures in
    let ready : IsReady n m c = record {
      retries = e;
      breaker = record { shut = s; count = z; limit = refl };
    } in
    let after = perform-IsReady n env o c method path body m h ready in
    let last = perform_last n env o c method path body m h ready in
    (after.breaker.shut, after.breaker.count, last.0, last.1)

-- The same call again and again, each time in an environment of its own.
unfoldable pub perform_each : List Environment → Client → String → String → Option String → Client
perform_each [] c method path body = c
perform_each (env ∷ envs) c method path body =
    perform_each envs (perform env c method path body).0 method path body

-- An outage lasts over all the calls.
abbrev pub Outages : ℕ → List Environment → Type 0
Outages n [] = Unit
Outages n (env ∷ envs) = Outage n env × Outages n envs

perform_each-IsReady :
    (envs : List Environment) (c : Client) (method path : String) (body : Option String) (n : ℕ)
    (m : ℤ)
    → Outages n envs
    → pos n <ℤ m
    → IsReady n m c
    → IsReady n m (perform_each envs c method path body)
unfolding perform_each
perform_each-IsReady [] c method path body n m o h r = r
perform_each-IsReady (env ∷ envs) c method path body n m o h r =
    perform_each-IsReady envs (perform env c method path body).0 method path body n m o.1 h
      (perform-IsReady n env o.0 c method path body m h r)

-- With 0 ≤ `MaxRetries` < `MaxFailures`, as in the default configuration, a server that answers
-- every request with a retryable status never trips a client's breaker: after any number of calls
-- the breaker of a client that started closed with no failure counted is closed with none counted.
-- None of the `MaxRetries` waits of a call is cut short or panics.
pub outage_never_trips :
    (envs : List Environment) (c : Client) (method path : String) (body : Option String) (n : ℕ)
    → Outages n envs
    → c.max_retries ≡ pos n
    → pos n <ℤ c.breaker.cfg.max_failures
    → c.breaker.state ≡ closed
    → c.breaker.failures ≡ 0
    → ((perform_each envs c method path body).breaker.state ≡ closed)
      × ((perform_each envs c method path body).breaker.failures ≡ 0)
outage_never_trips envs c method path body n o e h s z =
    let m = c.breaker.cfg.max_failures in
    let after =
      perform_each-IsReady envs c method path body n m o h
        (record { retries = e; breaker = record { shut = s; count = z; limit = refl } }) in
    (after.breaker.shut, after.breaker.count)
