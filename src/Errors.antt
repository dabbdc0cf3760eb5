-- ===== src/Errors.antt =====
-- Go error values: the repository's sentinels, errors of the libraries it calls, and the wrapping
-- of `fmt.Errorf("…: %w", err)`, which keeps what `errors.Is` looks for.
use event_observability_plat.Common.{String, Bool, true, false, ◌≡◌, ◌⊎◌, inl, inr, refl}

pub data Err : Type 0 where
  not_found : Err  -- domain.ErrNotFound
  circuit_open : Err  -- httpclient.ErrCircuitOpen
  context_done : String → Err  -- ctx.Err()
  external : String → Err  -- an error of a driver or of a library, by its text
  message : String → Err  -- errors.New and fmt.Errorf without %w
  wrapped : String → Err → Err  -- fmt.Errorf("prefix: %w", err)

-- `errors.Is(err, domain.ErrNotFound)`
unfoldable pub is_not_found : Err → Bool
is_not_found not_found = true
is_not_found (wrapped prefix e) = is_not_found e
is_not_found _ = false

-- A Go result pair `(value, error)` of which the callers read one side.
pub data Result {ℓ} (A : Type ℓ) : Type ℓ where
  ok : A → Result A
  err : Err → Result A

pub Result-cases {ℓ} :
    {A : Type ℓ} (r : Result A) → ((a : A) × (r ≡ ok a)) ⊎ ((e : Err) × (r ≡ err e))
Result-cases (ok a) = inl (a, refl)
Result-cases (err e) = inr (e, refl)
