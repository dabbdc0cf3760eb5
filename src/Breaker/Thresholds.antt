-- ===== src/Breaker/Thresholds.antt =====
-- When a breaker trips, refuses, probes and recovers.
use event_observability_plat.Common.{
  ℕ, zero, suc, ◌+◌, ◌≤◌, ◌<◌, ◌≡◌, ◌≤ℤ◌, refl, arith, length, map, replicate, All, ℤ, pos, ◌<ℤ◌,
  ◌-ℤ◌, Bool, true, false, List, [], ◌∷◌,
}
use event_observability_plat.Breaker.{
  closed, open_, half_open, CircuitBreaker, allow, record_success, record_failure,
}
use event_observability_plat.Breaker.Trace.{allow_at, success, failure_at, perform, run}

failure_counts :
    (cb : CircuitBreaker) (now : ℤ)
    → cb.state ≡ closed
    → pos (suc cb.failures) <ℤ cb.cfg.max_failures
    → (perform cb (failure_at now)).state ≡ closed
      × (perform cb (failure_at now)).failures ≡ suc cb.failures
      × (perform cb (failure_at now)).cfg ≡ cb.cfg
unfolding perform record_failure
failure_counts cb now s h = ground arith

failure_trips :
    (cb : CircuitBreaker) (now : ℤ)
    → cb.state ≡ closed
    → cb.cfg.max_failures ≡ pos (suc cb.failures)
    → (perform cb (failure_at now)).state ≡ open_
unfolding perform record_failure
failure_trips cb now s h = ground arith

failure-open :
    (cb : CircuitBreaker) (now : ℤ) → cb.state ≡ open_ → (perform cb (failure_at now)).state ≡ open_
unfolding perform record_failure
failure-open cb now s = ground arith

failures-open :
    (cb : CircuitBreaker) (nows : List ℤ)
    → cb.state ≡ open_
    → (run cb (map failure_at nows)).state ≡ open_
unfolding run
failures-open cb [] s = s
failures-open cb (now ∷ nows) s =
    failures-open (perform cb (failure_at now)) nows (failure-open cb now s)

failures_below :
    (cb : CircuitBreaker) (nows : List ℤ) (m : ℕ)
    → cb.state ≡ closed
    → cb.cfg.max_failures ≡ pos (suc m)
    → cb.failures + length nows ≤ m
    → ((run cb (map failure_at nows)).state ≡ closed)
      × ((run cb (map failure_at nows)).failures ≡ cb.failures + length nows)
unfolding run
failures_below cb [] m s e h = (s, omega arith)
failures_below cb (now ∷ nows) m s e h =
    ground (arith, failure_counts cb now, failures_below (perform cb (failure_at now)) nows m)

failures_beyond :
    (cb : CircuitBreaker) (nows : List ℤ) (m : ℕ)
    → cb.state ≡ closed
    → cb.cfg.max_failures ≡ pos (suc m)
    → cb.failures ≤ m
    → m < cb.failures + length nows
    → (run cb (map failure_at nows)).state ≡ open_
unfolding run
failures_beyond cb [] m s e b h = absurd (omega arith)
failures_beyond cb (now ∷ nows) m s e b h = ground (
  arith,
  failure_counts cb now,
  failure_trips cb now,
  failures-open (perform cb (failure_at now)) nows,
  failures_beyond (perform cb (failure_at now)) nows m,
)

-- With `MaxFailures` = m + 1, a closed breaker that has counted no failure is closed after m or
-- fewer failures in a row, with all of them counted, and open after any greater number.
pub trips_exactly :
    (cb : CircuitBreaker) (m : ℕ) (nows : List ℤ)
    → cb.state ≡ closed
    → cb.failures ≡ 0
    → cb.cfg.max_failures ≡ pos (suc m)
    → (length nows ≤ m
        → ((run cb (map failure_at nows)).state ≡ closed)
          × ((run cb (map failure_at nows)).failures ≡ length nows))
      × (m < length nows → (run cb (map failure_at nows)).state ≡ open_)
trips_exactly cb m nows s z e = (
  λ h. ground (arith, failures_below cb nows m s e),
  λ h. failures_beyond cb nows m s e (omega arith) (omega arith),
)

-- What `Allow` answers to each request of a history.
unfoldable pub answers : CircuitBreaker → List ℤ → List Bool
answers cb [] = []
answers cb (now ∷ nows) = let (cb', admitted) = allow cb now in admitted ∷ answers cb' nows

pub allow_early :
    (cb : CircuitBreaker) (now : ℤ)
    → cb.state ≡ open_
    → (now -ℤ cb.last_failure) <ℤ cb.cfg.open_timeout
    → allow cb now ≡ (cb, false)
unfolding allow
allow_early cb now s h = ground arith

-- An open breaker refuses every request that comes less than `OpenTimeout` after the last failure,
-- and none of them changes it.
pub open_refuses :
    (cb : CircuitBreaker) (nows : List ℤ)
    → cb.state ≡ open_
    → All (λ now. (now -ℤ cb.last_failure) <ℤ cb.cfg.open_timeout) nows
    → (answers cb nows ≡ replicate (length nows) false) × (run cb (map allow_at nows) ≡ cb)
unfolding answers run perform
open_refuses cb [] s h = (refl, refl)
open_refuses cb (now ∷ nows) s h =
    ground (arith, allow_early cb now s h.0, open_refuses cb nows s h.1)

success_counts :
    (cb : CircuitBreaker)
    → cb.state ≡ half_open
    → pos (suc cb.probes) <ℤ cb.cfg.half_open_probes
    → record_success cb ≡ record cb { probes = suc cb.probes }
unfolding record_success
success_counts cb s h = ground arith

success_closes :
    (cb : CircuitBreaker)
    → cb.state ≡ half_open
    → cb.cfg.half_open_probes ≡ pos (suc cb.probes)
    → ((record_success cb).state ≡ closed) × ((record_success cb).failures ≡ 0)
unfolding record_success
success_closes cb s h = ground arith

probes_below :
    (cb : CircuitBreaker) (k p : ℕ)
    → cb.state ≡ half_open
    → cb.cfg.half_open_probes ≡ pos (suc p)
    → cb.probes + k ≤ p
    → run cb (replicate k success) ≡ record cb { probes = cb.probes + k }
unfolding run perform
probes_below cb zero p s e h = ground arith
probes_below cb (suc k) p s e h =
    ground (arith, success_counts cb, probes_below (record cb { probes = suc cb.probes }) k p)

probes_reached :
    (cb : CircuitBreaker) (k p : ℕ)
    → cb.state ≡ half_open
    → cb.cfg.half_open_probes ≡ pos (suc p)
    → cb.probes + k ≡ p
    → ((run cb (replicate (suc k) success)).state ≡ closed)
      × ((run cb (replicate (suc k) success)).failures ≡ 0)
unfolding run perform
probes_reached cb zero p s e h = ground (arith, success_closes cb)
probes_reached cb (suc k) p s e h =
    ground (arith, success_counts cb, probes_reached (record cb { probes = suc cb.probes }) k p)

failure_relapses :
    (cb : CircuitBreaker) (now : ℤ)
    → cb.state ≡ half_open
    → ((record_failure cb now).state ≡ open_) × ((record_failure cb now).last_failure ≡ now)
unfolding record_failure
failure_relapses cb now s = ground arith

allow_late :
    (cb : CircuitBreaker) (now : ℤ)
    → cb.state ≡ open_
    → cb.cfg.open_timeout ≤ℤ (now -ℤ cb.last_failure)
    → ((allow cb now).1 ≡ true)
      × ((allow cb now).0.state ≡ half_open)
      × ((allow cb now).0.probes ≡ 0)
      × ((allow cb now).0.cfg ≡ cb.cfg)
unfolding allow
allow_late cb now s h = ground arith

-- With `HalfOpenProbes` = p + 1: an open breaker that is asked `OpenTimeout` or more after the last
-- failure admits the request; then p successes leave it half-open, one more closes it with no
-- failure counted, and a failure after p or fewer successes opens it again from that instant.
pub recovers_exactly :
    (cb : CircuitBreaker) (now later : ℤ) (k p : ℕ)
    → cb.state ≡ open_
    → cb.cfg.open_timeout ≤ℤ (now -ℤ cb.last_failure)
    → cb.cfg.half_open_probes ≡ pos (suc p)
    → k ≤ p
    → let probing = (allow cb now).0 in
      ((allow cb now).1 ≡ true)
      × ((run probing (replicate k success)).state ≡ half_open)
      × ((run probing (replicate (suc p) success)).state ≡ closed)
      × ((run probing (replicate (suc p) success)).failures ≡ 0)
      × ((record_failure (run probing (replicate k success)) later).state ≡ open_)
      × ((record_failure (run probing (replicate k success)) later).last_failure ≡ later)
recovers_exactly cb now later k p s t e h =
    let probing = (allow cb now).0 in
    ground (
      arith,
      allow_late cb now,
      probes_below probing k p,
      probes_reached probing p p,
      failure_relapses (run probing (replicate k success)) later,
    )
