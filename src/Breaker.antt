-- ===== src/Breaker.antt =====
-- The circuit breaker of internal/infra/outbound/httpclient/breaker.go.
-- The clock is an argument: `now` is what `time.Now()` returns inside the call. Each method runs
-- under the breaker's mutex, so a concurrent history is a sequence of these calls. `onChange` is
-- the list of transitions that it was told of, latest last.
pub mod Invariant
pub mod Trace
pub mod Thresholds
use event_observability_plat.Common.{
  ℕ, ◌+◌, String, Bool, true, false, Option, none, some, List, [], ◌∷◌, ◌++◌, if◌then◌else◌, ℤ, pos,
  negsuc, leb_ℤ, ◌-ℤ◌,
}

pub data CbState : Type 0 where
  closed : CbState  -- normal operation
  open_ : CbState  -- failing fast
  half_open : CbState  -- probing recovery

-- `cbState.String`; its default case is reached by no value of the enumeration.
unfoldable pub state_name : CbState → String
state_name closed = "closed"
state_name open_ = "open"
state_name half_open = "half-open"

pub record BreakerConfig : Type 0 where
  pub max_failures : ℤ
  pub open_timeout : ℤ
  pub half_open_probes : ℤ

-- nanoseconds: 30 * time.Second
abbrev pub default_breaker_config : BreakerConfig
default_breaker_config = record {
  max_failures = pos 5;
  open_timeout = pos 30000000000;
  half_open_probes = pos 2;
}

pub record CircuitBreaker : Type 0 where
  pub state : CbState
  pub failures : ℕ
  pub probes : ℕ
  pub last_failure : ℤ
  pub cfg : BreakerConfig
  pub changes : List (String × String)

-- `lastFailure` starts as the zero `time.Time`, given as `epoch`.
unfoldable pub new_circuit_breaker : BreakerConfig → ℤ → CircuitBreaker
new_circuit_breaker cfg epoch = record {
  state = closed;
  failures = 0;
  probes = 0;
  last_failure = epoch;
  cfg = cfg;
  changes = [];
}

abbrev pub same_state : CbState → CbState → Bool
same_state closed closed = true
same_state open_ open_ = true
same_state half_open half_open = true
same_state _ _ = false

unfoldable pub transition : CircuitBreaker → CbState → CircuitBreaker
unfolding state_name
transition cb next = if same_state cb.state next then cb else record cb {
  state = next;
  failures = 0;
  probes = 0;
  changes = cb.changes ++ (state_name cb.state, state_name next) ∷ [];
}

allow_in : CbState → CircuitBreaker → ℤ → CircuitBreaker × Bool
unfolding transition
allow_in closed cb now = (cb, true)
allow_in open_ cb now =
    if leb_ℤ cb.cfg.open_timeout (now -ℤ cb.last_failure)
    then (transition cb half_open, true)
    else (cb, false)
allow_in half_open cb now = (cb, true)

-- `true` is the nil error, `false` is ErrCircuitOpen.
unfoldable pub allow : CircuitBreaker → ℤ → CircuitBreaker × Bool
unfolding allow_in
allow cb now = allow_in cb.state cb now

record_success_in : CbState → CircuitBreaker → CircuitBreaker
unfolding transition
record_success_in closed cb = record cb { failures = 0 }
record_success_in open_ cb = cb
record_success_in half_open cb =
    let counted = record cb { probes = cb.probes + 1 } in
    if leb_ℤ cb.cfg.half_open_probes (pos (cb.probes + 1))
    then transition counted closed
    else counted

unfoldable pub record_success : CircuitBreaker → CircuitBreaker
unfolding record_success_in
record_success cb = record_success_in cb.state cb

record_failure_in : CbState → CircuitBreaker → CircuitBreaker
unfolding transition
record_failure_in closed cb =
    let counted = record cb { failures = cb.failures + 1 } in
    if leb_ℤ cb.cfg.max_failures (pos (cb.failures + 1)) then transition counted open_ else counted
record_failure_in open_ cb = cb
record_failure_in half_open cb = transition (record cb { probes = 0 }) open_

unfoldable pub record_failure : CircuitBreaker → ℤ → CircuitBreaker
unfolding record_failure_in
record_failure cb now = record_failure_in cb.state (record cb { last_failure = now })

-- `State`
unfoldable pub state_of : CircuitBreaker → String
unfolding state_name
state_of cb = state_name cb.state
