-- ===== src/Retry.antt =====
-- internal/infra/outbound/httpclient/retry.go: which responses are retried, and the delay before.
use native.Mathlib.Nat.{pow-le-pow_right}
use event_observability_plat.Common.{
  ℕ, zero, suc, ◌-◌, ◌*◌, ◌^◌, ◌≤◌, ◌<◌, min, ◌≡◌, ◌⊎◌, ◌↔◌, arith, leb, ◌==◌, if◌then◌else◌, ℤ,
  pos, negsuc, ltb_ℤ, Bool, true, ◌||◌, Option, none, some,
}

unfoldable pub retryable_status : ℕ → Bool
retryable_status code = code == 429 || code == 502 || code == 503 || code == 504 || leb 500 code

-- nanoseconds
abbrev pub base_delay : ℕ
base_delay = 100000000

abbrev pub max_delay : ℕ
max_delay = 30000000000

-- What `backoff` takes from the platform. `to_duration x` is the conversion of the float64 with the
-- whole value x to int64: Go fixes it below 2 ^ 63 and leaves the rest to the machine. `draw k n` is
-- the k-th answer of the generator for a bound n.
pub record Platform : Type 0 where
  pub to_duration : ℕ → ℤ
  pub draw : ℕ → ℕ → ℕ

-- `rand.Int63n` panics (`none`) unless its bound is positive.
unfoldable pub int63n : (ℕ → ℕ) → ℤ → Option ℕ
int63n draw (pos (suc n)) = some (draw (suc n))
int63n draw _ = none

-- `ceiling + 1` as a whole number; the ceiling is at most `max_delay`, so nothing wraps.
abbrev pub next : ℤ → ℤ
next (pos n) = pos (suc n)
next (negsuc zero) = pos zero
next (negsuc (suc n)) = negsuc n

unfoldable pub ceiling : Platform → ℕ → ℤ
ceiling p attempt =
    let c = p.to_duration (base_delay * 2 ^ attempt) in
    if ltb_ℤ (pos max_delay) c then pos max_delay else c

-- The k-th call, for attempt n: the delay in nanoseconds, or a panic.
unfoldable pub backoff : Platform → ℕ → ℕ → Option ℕ
unfolding ceiling int63n
backoff p k attempt = int63n (p.draw k) (next (ceiling p attempt))

-- A response is retried exactly when its status is 429 or at least 500.
pub retryable_iff : (code : ℕ) → (retryable_status code ≡ true) ↔ ((code ≡ 429) ⊎ (500 ≤ code))
unfolding retryable_status
retryable_iff code = ground arith

clip :
    (x : ℕ)
    → (if ltb_ℤ (pos max_delay) (pos x) then pos max_delay else pos x) ≡ pos (min x max_delay)
clip x = ground arith

module _ (p : Platform) (in_range : (x : ℕ) → x < 2 ^ 63 → p.to_duration x ≡ pos x) where
  product_fits : (attempt : ℕ) → attempt ≤ 36 → base_delay * 2 ^ attempt < 2 ^ 63
  product_fits attempt h =
      let le : 2 ^ attempt ≤ 2 ^ 36 = pow-le-pow_right (omega arith) h in omega arith

  ceiling_value :
      (attempt : ℕ)
      → attempt ≤ 36
      → ceiling p attempt ≡ pos (min (base_delay * 2 ^ attempt) max_delay)
  unfolding ceiling
  ceiling_value attempt h =
      rw (in_range _ (product_fits attempt h)) (clip (base_delay * 2 ^ attempt))

  -- Where the conversion to int64 is exact below 2 ^ 63 and the generator answers below its bound, the delay
  -- before attempt n + 1, for n ≤ 36, is drawn: it is at most thirty seconds and at most 100 ms * 2 ^ n, and
  -- nothing panics.
  pub backoff_bounds :
      (k attempt : ℕ)
      → ((n : ℕ) → p.draw k (suc n) < suc n)
      → attempt ≤ 36
      → (d : ℕ) × (backoff p k attempt ≡ some d) × (d ≤ max_delay) × (d ≤ base_delay * 2 ^ attempt)
  unfolding backoff
  backoff_bounds k attempt below h =
      let x = base_delay * 2 ^ attempt in
      let c = min x max_delay in
      let e : ceiling p attempt ≡ pos c = ceiling_value attempt h in
      let b : p.draw k (suc c) < suc c = below c in
      (p.draw k (suc c), rw e, omega arith, omega arith)

-- Where the conversion of a value past the range of int64 gives the least int64, as on amd64, a
-- delay for attempt 37 or later panics.
pub backoff_panics :
    (p : Platform)
    → ((x : ℕ) → 2 ^ 63 ≤ x → p.to_duration x ≡ negsuc (2 ^ 63 - 1))
    → (k attempt : ℕ) → 37 ≤ attempt
    → backoff p k attempt ≡ none
unfolding backoff
backoff_panics p overflow k attempt h =
    let le : 2 ^ 37 ≤ 2 ^ attempt = pow-le-pow_right (omega arith) h in
    rw (overflow (base_delay * 2 ^ attempt) (omega arith))
