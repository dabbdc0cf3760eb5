-- ===== src/Breaker/Trace.antt =====
-- Histories of a breaker: any sequence of its three methods, at any clock readings.
use event_observability_plat.Common.{◌≡◌, sym, arith, ℤ, String, List, [], ◌∷◌, ◌++◌}
use mathlib.Core.Path.{subst₂}
use event_observability_plat.Breaker.{
  CbState, closed, open_, half_open, CircuitBreaker, new_circuit_breaker, allow, record_success,
  record_failure, BreakerConfig, state_name,
}
use event_observability_plat.Breaker.Invariant.{
  IsConsistent, new-IsConsistent, allow-IsConsistent, success-IsConsistent, failure-IsConsistent,
}

-- One call of a method of the breaker, with what the clock reads in it.
pub data Call : Type 0 where
  allow_at : ℤ → Call
  success : Call
  failure_at : ℤ → Call

unfoldable pub perform : CircuitBreaker → Call → CircuitBreaker
perform cb (allow_at now) = (allow cb now).0
perform cb success = record_success cb
perform cb (failure_at now) = record_failure cb now

unfoldable pub run : CircuitBreaker → List Call → CircuitBreaker
run cb [] = cb
run cb (c ∷ cs) = run (perform cb c) cs

perform-IsConsistent :
    (cb : CircuitBreaker) (c : Call) → IsConsistent cb → IsConsistent (perform cb c)
unfolding perform
perform-IsConsistent cb (allow_at now) h = allow-IsConsistent cb now h
perform-IsConsistent cb success h = success-IsConsistent cb h
perform-IsConsistent cb (failure_at now) h = failure-IsConsistent cb now h

run-IsConsistent :
    (cb : CircuitBreaker) (cs : List Call) → IsConsistent cb → IsConsistent (run cb cs)
unfolding run
run-IsConsistent cb [] h = h
run-IsConsistent cb (c ∷ cs) h = run-IsConsistent (perform cb c) cs (perform-IsConsistent cb c h)

-- A new breaker, after any history of calls at any clock readings, has its failure counter zero or below
-- `MaxFailures`, its probe counter zero or below `HalfOpenProbes`, and counts failures only when
-- closed and probes only when half-open.
pub history-IsConsistent :
    (cfg : BreakerConfig) (epoch : ℤ) (cs : List Call)
    → IsConsistent (run (new_circuit_breaker cfg epoch) cs)
history-IsConsistent cfg epoch cs =
    run-IsConsistent (new_circuit_breaker cfg epoch) cs (new-IsConsistent cfg epoch)

-- The diagram of the type's comment: Closed → Open → Half-Open → Closed, and back to Open.
pub data Edge : CbState → CbState → Type 0 where
  trip : Edge closed open_
  probe : Edge open_ half_open
  recover : Edge half_open closed
  relapse : Edge half_open open_

-- A list of reported changes that leads from one state to another along the diagram.
pub data Walk (s : CbState) : List (String × String) → CbState → Type 0 where
  stay : Walk s [] s
  step :
      {log : List (String × String)} {t u : CbState}
      → Walk s log t
      → Edge t u
      → Walk s (log ++ (state_name t, state_name u) ∷ []) u

-- What one call does to the state and to the reports.
data Change (cb : CircuitBreaker) (next : CircuitBreaker) : Type 0 where
  kept : next.state ≡ cb.state → next.changes ≡ cb.changes → Change cb next
  moved :
      Edge cb.state next.state
      → next.changes ≡ cb.changes ++ (state_name cb.state, state_name next.state) ∷ []
      → Change cb next

allow-Change : (cb : CircuitBreaker) (now : ℤ) → Change cb (allow cb now).0
unfolding allow
allow-Change cb now = grind (arith, kept, moved, trip, probe, recover, relapse)

success-Change : (cb : CircuitBreaker) → Change cb (record_success cb)
unfolding record_success
success-Change cb = grind (arith, kept, moved, trip, probe, recover, relapse)

failure-Change : (cb : CircuitBreaker) (now : ℤ) → Change cb (record_failure cb now)
unfolding record_failure
failure-Change cb now = grind (arith, kept, moved, trip, probe, recover, relapse)

perform-Change : (cb : CircuitBreaker) (c : Call) → Change cb (perform cb c)
unfolding perform
perform-Change cb (allow_at now) = allow-Change cb now
perform-Change cb success = success-Change cb
perform-Change cb (failure_at now) = failure-Change cb now

Change-Walk :
    (s : CbState) (cb next : CircuitBreaker)
    → Change cb next
    → Walk s cb.changes cb.state
    → Walk s next.changes next.state
Change-Walk s cb next (kept e f) w = subst₂ (Walk s) (sym f) (sym e) w
Change-Walk s cb next (moved e f) w = rw f (step w e)

run-Walk :
    (s : CbState) (cb : CircuitBreaker) (cs : List Call)
    → Walk s cb.changes cb.state
    → Walk s (run cb cs).changes (run cb cs).state
unfolding run
run-Walk s cb [] w = w
run-Walk s cb (c ∷ cs) w =
    run-Walk s (perform cb c) cs (Change-Walk s cb (perform cb c) (perform-Change cb c) w)

-- The changes that a new breaker has reported, after any history of calls, lead from `closed` to
-- its present state, one edge of the diagram after another: none is skipped, none is reported twice.
pub history-Walk :
    (cfg : BreakerConfig) (epoch : ℤ) (cs : List Call)
    → let cb = run (new_circuit_breaker cfg epoch) cs in Walk closed cb.changes cb.state
unfolding new_circuit_breaker
history-Walk cfg epoch cs = run-Walk closed (new_circuit_breaker cfg epoch) cs stay
