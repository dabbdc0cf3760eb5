-- ===== src/Tests/Outbound.antt =====
-- The breaker, the backoff and the outbound client at concrete inputs.
use event_observability_plat.Common.{
  ℕ, zero, suc, ◌-◌, ◌*◌, ◌^◌, ◌≤◌, ◌<◌, ◌≡◌, ◌⊎◌, refl, arith, length, map, replicate, All, String,
  true, false, none, some, List, [], ◌∷◌, if◌then◌else◌, ℤ, pos, negsuc, ltb, ◌-ℤ◌, ◌<ℤ◌, ◌≤ℤ◌,
}
use event_observability_plat.Errors.{Err, wrapped, err, circuit_open}
use event_observability_plat.Breaker.{
  closed, open_, half_open, default_breaker_config, CircuitBreaker, new_circuit_breaker, allow,
  record_success, record_failure,
}
use event_observability_plat.Breaker.Invariant.{IsConsistent, new-IsConsistent}
use event_observability_plat.Breaker.Trace.{
  Call, allow_at, success, failure_at, run, perform as perform_call, Walk, history-Walk,
}
use event_observability_plat.Breaker.Thresholds.{trips_exactly, recovers_exactly}
use event_observability_plat.Retry.{
  Platform, retryable_status, backoff, backoff_bounds, backoff_panics, base_delay, max_delay,
}
use event_observability_plat.Client.{
  Client, Response, Environment, Exchange, whole, response, failed, panic, perform, do_once,
  request_of, start, conclude,
}
use event_observability_plat.Client.Blind.{Outage, outage_never_trips, perform_each}
use event_observability_plat.Client.Guard.{perform_fails_fast}
use event_observability_plat.Client.Results.{perform_final}

abbrev fresh : CircuitBreaker
fresh = record {
  state = closed;
  failures = 0;
  probes = 0;
  last_failure = pos 0;
  cfg = default_breaker_config;
  changes = [];
}

-- Five failures in a row, a refused request, a probe that fails, and a recovery.
abbrev stormy : List Call
stormy =
    failure_at (pos 1)
    ∷ failure_at (pos 2)
    ∷ failure_at (pos 3)
    ∷ failure_at (pos 4)
    ∷ failure_at (pos 5)
    ∷ allow_at (pos 6)
    ∷ allow_at (pos 30000000005)
    ∷ failure_at (pos 30000000006)
    ∷ allow_at (pos 60000000006)
    ∷ success
    ∷ success
    ∷ []

stormy_closes : (run (new_circuit_breaker default_breaker_config (pos 0)) stormy).state ≡ closed
unfolding run perform_call allow record_success record_failure new_circuit_breaker ◌-ℤ◌
stormy_closes = refl

history-Walk_example :
    Walk closed
      (run (new_circuit_breaker default_breaker_config (pos 0)) stormy).changes
      (run (new_circuit_breaker default_breaker_config (pos 0)) stormy).state
history-Walk_example = history-Walk default_breaker_config (pos 0) stormy

abbrev five : List ℤ
five = pos 1 ∷ pos 2 ∷ pos 3 ∷ pos 4 ∷ pos 5 ∷ []

trips_exactly_example :
    (length five ≤ 4
      → ((run fresh (map failure_at five)).state ≡ closed)
        × ((run fresh (map failure_at five)).failures ≡ length five))
    × (4 < length five → (run fresh (map failure_at five)).state ≡ open_)
trips_exactly_example = trips_exactly fresh 4 five refl refl refl

-- A breaker that tripped at the instant 5.
abbrev tripped : CircuitBreaker
tripped = record {
  state = open_;
  failures = 0;
  probes = 0;
  last_failure = pos 5;
  cfg = default_breaker_config;
  changes = ("closed", "open") ∷ [];
}

early : All (λ now. (now -ℤ tripped.last_failure) <ℤ tripped.cfg.open_timeout) (pos 6 ∷ pos 7 ∷ [])
unfolding ◌-ℤ◌
early = omega arith

timed_out : tripped.cfg.open_timeout ≤ℤ (pos 30000000005 -ℤ tripped.last_failure)
unfolding ◌-ℤ◌
timed_out = omega arith

recovers_exactly_example :
    let probing = (allow tripped (pos 30000000005)).0 in
    ((allow tripped (pos 30000000005)).1 ≡ true)
    × ((run probing (replicate 1 success)).state ≡ half_open)
    × ((run probing (replicate 2 success)).state ≡ closed)
    × ((run probing (replicate 2 success)).failures ≡ 0)
    × ((record_failure (run probing (replicate 1 success)) (pos 30000000009)).state ≡ open_)
    × ((record_failure (run probing (replicate 1 success)) (pos 30000000009)).last_failure
        ≡ pos 30000000009)
recovers_exactly_example =
    recovers_exactly tripped (pos 30000000005) (pos 30000000009) 1 1 refl timed_out refl
      (omega arith)

-- A machine that saturates as amd64 does, and a generator that answers 0.
abbrev amd64 : Platform
amd64 = record {
  to_duration = λ x. if ltb x (2 ^ 63) then pos x else negsuc (2 ^ 63 - 1);
  draw = λ k n. 0;
}

amd64_exact : (x : ℕ) → x < 2 ^ 63 → amd64.to_duration x ≡ pos x
amd64_exact x h = ground arith

amd64_overflow : (x : ℕ) → 2 ^ 63 ≤ x → amd64.to_duration x ≡ negsuc (2 ^ 63 - 1)
amd64_overflow x h = ground arith

backoff_bounds_example :
    (d : ℕ) × (backoff amd64 0 3 ≡ some d) × (d ≤ max_delay) × (d ≤ base_delay * 2 ^ 3)
backoff_bounds_example = backoff_bounds amd64 amd64_exact 0 3 (λ n. omega arith) (omega arith)

backoff_panics_example : backoff amd64 0 40 ≡ none
backoff_panics_example = backoff_panics amd64 amd64_overflow 0 40 (omega arith)

-- A server that always answers 503.
abbrev unavailable : Response
unavailable = record { status_code = 503; body = ""; headers = [] }

abbrev still : ℕ → Exchange
still k = record {
  cancelled = none;
  allow_clock = pos k;
  failure_clock = pos k;
  build_error = none;
  answer = whole unavailable;
}

abbrev down : Environment
down = record { platform = amd64; propagated = []; exchange = still }

drawn_now : (k : ℕ) → k < 3 → backoff amd64 k k ≡ some 0
unfolding backoff
drawn_now zero h = refl
drawn_now (suc zero) h = refl
drawn_now (suc (suc zero)) h = refl
drawn_now (suc (suc (suc k))) h = absurd (omega arith)

abbrev outage : Outage 3 down
outage = record {
  reply = λ k. unavailable;
  built = λ k _. refl;
  answered = λ k _. refl;
  retryable = λ k _. unfold retryable_status in refl;
  live = λ k _. refl;
  delay = λ k. 0;
  drawn = drawn_now;
}

abbrev client : Client
client = record {
  base_url = "http://notify";
  headers = [];
  max_retries = pos 3;
  breaker = fresh;
  metrics = some [];
  target = "notifications-api";
}

outage_never_trips_example :
    ((perform_each (down ∷ down ∷ []) client "POST" "/notify" none).breaker.state ≡ closed)
    × ((perform_each (down ∷ down ∷ []) client "POST" "/notify" none).breaker.failures ≡ 0)
outage_never_trips_example =
    outage_never_trips (down ∷ down ∷ []) client "POST" "/notify" none 3 (outage, (outage, tt)) refl
      (omega arith) refl refl

fresh-IsConsistent : IsConsistent client.breaker
fresh-IsConsistent = unfold new_circuit_breaker in new-IsConsistent default_breaker_config (pos 0)

abbrev shut_out : Client
shut_out = record client { breaker = tripped }

soon : ((down.exchange 0).allow_clock -ℤ tripped.last_failure) <ℤ tripped.cfg.open_timeout
unfolding ◌-ℤ◌
soon = omega arith

perform_fails_fast_example :
    perform down shut_out "POST" "/notify" none ≡ (shut_out, [], failed circuit_open)
perform_fails_fast_example = perform_fails_fast down shut_out "POST" "/notify" none 3 refl refl soon

perform_final_example :
    ((r : Response)
      → (perform down client "POST" "/notify" none).2 ≡ response r
      → (k : ℕ) × (k ≤ 3)
        × ((down.exchange k).answer ≡ whole r)
        × ((k ≡ 3) ⊎ (retryable_status r.status_code ≡ false)))
    × ((prefix : String) (e : Err)
        → (perform down client "POST" "/notify" none).2 ≡ failed (wrapped prefix e)
        → (do_once down (down.exchange 3) (request_of down client "POST" "/notify" none)).1 ≡ err e)
perform_final_example = perform_final down client "POST" "/notify" none 3 refl

-- A negative `MaxRetries` makes every call panic.
abbrev careless : Client
careless = record client { max_retries = negsuc 0 }

careless_panics : (perform down careless "POST" "/notify" none).2 ≡ panic
unfolding perform start conclude
careless_panics = refl
