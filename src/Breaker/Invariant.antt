-- ===== src/Breaker/Invariant.antt =====
-- What holds of a breaker between two calls.
use event_observability_plat.Common.{◌<◌, ◌≡◌, ◌⊎◌, arith, ℤ, pos, ◌<ℤ◌}
use event_observability_plat.Breaker.{
  closed, half_open, CircuitBreaker, new_circuit_breaker, allow, record_success, record_failure,
  BreakerConfig,
}

-- The counters stay below their thresholds, and each counts only in its own state.
pub record IsConsistent (cb : CircuitBreaker) : Type 0 where
  pub below_trip : (cb.failures ≡ 0) ⊎ (pos cb.failures <ℤ cb.cfg.max_failures)
  pub failures_closed : 0 < cb.failures → cb.state ≡ closed
  pub below_close : (cb.probes ≡ 0) ⊎ (pos cb.probes <ℤ cb.cfg.half_open_probes)
  pub probes_half_open : 0 < cb.probes → cb.state ≡ half_open

pub new-IsConsistent :
    (cfg : BreakerConfig) (epoch : ℤ) → IsConsistent (new_circuit_breaker cfg epoch)
unfolding new_circuit_breaker
new-IsConsistent cfg epoch = ground arith

pub allow-IsConsistent :
    (cb : CircuitBreaker) (now : ℤ) → IsConsistent cb → IsConsistent (allow cb now).0
unfolding allow
allow-IsConsistent cb now h = ground arith

pub success-IsConsistent :
    (cb : CircuitBreaker) → IsConsistent cb → IsConsistent (record_success cb)
unfolding record_success
success-IsConsistent cb h = ground arith

pub failure-IsConsistent :
    (cb : CircuitBreaker) (now : ℤ) → IsConsistent cb → IsConsistent (record_failure cb now)
unfolding record_failure
failure-IsConsistent cb now h = ground arith
