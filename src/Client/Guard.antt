-- ===== src/Client/Guard.antt =====
-- The breaker as `Do` drives it, and what the answer of `Do` stands for.
use event_observability_plat.Common.{
  ℕ, zero, suc, ◌≡◌, inl, inr, arith, ℤ, pos, negsuc, ◌<ℤ◌, ◌-ℤ◌, String, Bool, true, false,
  Bool-cases, Option, Option-cases, some, [],
}
use event_observability_plat.Errors.{circuit_open, Result, ok, err}
use event_observability_plat.Breaker.{open_, CircuitBreaker, allow}
use event_observability_plat.Breaker.Invariant.{
  IsConsistent, allow-IsConsistent, success-IsConsistent, failure-IsConsistent,
}
use event_observability_plat.Breaker.Thresholds.{allow_early}
use event_observability_plat.Client.Turns.{crashed, gave_up, went, turn-Paced}
use event_observability_plat.Client.{
  Client, Environment, Exchange, Request, Response, Exit, refused, failed, enter, turn, loop, start,
  settle, do_once, conclude, perform, request_of,
}

settle-IsConsistent :
    (last : Bool) (now : ℤ) (cb : CircuitBreaker) (r : Result Response)
    → IsConsistent cb
    → IsConsistent (settle last now cb r).0
unfolding settle
settle-IsConsistent last now cb (err e) h = failure-IsConsistent cb now h
settle-IsConsistent last now cb (ok r) h =
    ground (arith, failure-IsConsistent cb now h, success-IsConsistent cb h)

enter-IsConsistent :
    (env : Environment) (ex : Exchange) (req : Request) (last : Bool) (cb : CircuitBreaker)
    → IsConsistent cb
    → IsConsistent (enter env ex req last cb).0
unfolding enter
enter-IsConsistent env ex req last cb h =
    let asked = allow-IsConsistent cb ex.allow_clock h in
    elim (Bool-cases (allow cb ex.allow_clock).1) [
      | inl admitted ↦
          rw (admitted, enter)
            (settle-IsConsistent last ex.failure_clock (allow cb ex.allow_clock).0
              (do_once env ex req).1 asked)
      | inr shut ↦ rw (shut, enter) asked
    ]

turn-IsConsistent :
    (env : Environment) (req : Request) (last : Bool) (n : ℕ) (cb : CircuitBreaker)
    → IsConsistent cb
    → IsConsistent (turn env req last n cb).0
turn-IsConsistent env req last n cb h = elim (turn-Paced env req last n cb) [
  | crashed e ↦ rw e h
  | gave_up m e ↦ rw e h
  | went e ↦ rw e (enter-IsConsistent env (env.exchange n) req last cb h)
]

loop-IsConsistent :
    (env : Environment) (req : Request) (left n : ℕ) (cb : CircuitBreaker)
    → IsConsistent cb
    → IsConsistent (loop env req left n cb).0
unfolding loop
loop-IsConsistent env req zero n cb h = turn-IsConsistent env req true n cb h
loop-IsConsistent env req (suc left) n cb h =
    let h' = turn-IsConsistent env req false n cb h in
    elim (Option-cases (turn env req false n cb).2) [
      | inl again ↦
          rw (again, loop) (loop-IsConsistent env req left (suc n) (turn env req false n cb).0 h')
      | inr (x, left_by) ↦ rw (left_by, loop) h'
    ]

breaker-conclude :
    (c : Client) (method url : String) (x : Option Exit)
    → (conclude c method url x).0.breaker ≡ c.breaker
unfolding conclude
breaker-conclude c method url x = ground arith

start-IsConsistent :
    (env : Environment) (req : Request) (retries : ℤ) (cb : CircuitBreaker)
    → IsConsistent cb
    → IsConsistent (start env req retries cb).0
unfolding start
start-IsConsistent env req (pos n) cb h = loop-IsConsistent env req n 0 cb h
start-IsConsistent env req (negsuc n) cb h = h

-- A call of `Do`, whatever the network and the clock do, keeps the breaker's counters within their
-- thresholds and counting only in their own states.
pub perform-IsConsistent :
    (env : Environment) (c : Client) (method path : String) (body : Option String)
    → IsConsistent c.breaker
    → IsConsistent (perform env c method path body).0.breaker
unfolding perform
perform-IsConsistent env c method path body h =
    rw breaker-conclude
      (start-IsConsistent env (request_of env c method path body) c.max_retries c.breaker h)

turn_refused :
    (env : Environment) (req : Request) (last : Bool) (cb : CircuitBreaker)
    → cb.state ≡ open_
    → ((env.exchange 0).allow_clock -ℤ cb.last_failure) <ℤ cb.cfg.open_timeout
    → turn env req last 0 cb ≡ (cb, [], some refused)
unfolding turn enter
turn_refused env req last cb s h = ground (arith, allow_early cb (env.exchange 0).allow_clock s h)

start_refused :
    (env : Environment) (req : Request) (n : ℕ) (cb : CircuitBreaker)
    → cb.state ≡ open_
    → ((env.exchange 0).allow_clock -ℤ cb.last_failure) <ℤ cb.cfg.open_timeout
    → start env req (pos n) cb ≡ (cb, [], some refused)
unfolding start loop
start_refused env req zero cb s h = turn_refused env req true cb s h
start_refused env req (suc n) cb s h = ground (arith, turn_refused env req false cb s h)

-- A call of `Do` that begins less than `OpenTimeout` after the last failure recorded by an open
-- breaker fails fast: it returns ErrCircuitOpen, sends nothing, and leaves the client, its breaker
-- and its metrics as they were. (`MaxRetries` is not negative.)
pub perform_fails_fast :
    (env : Environment) (c : Client) (method path : String) (body : Option String) (n : ℕ)
    → c.max_retries ≡ pos n
    → c.breaker.state ≡ open_
    → ((env.exchange 0).allow_clock -ℤ c.breaker.last_failure) <ℤ c.breaker.cfg.open_timeout
    → perform env c method path body ≡ (c, [], failed circuit_open)
unfolding perform conclude
perform_fails_fast env c method path body n e s h =
    ground (arith, start_refused env (request_of env c method path body) n c.breaker s h)
