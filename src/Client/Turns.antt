-- ===== src/Client/Turns.antt =====
-- The shapes that one pass of the loop of `Do` can take.
use event_observability_plat.Common.{
  ℕ, zero, suc, ◌≡◌, refl, arith, inl, inr, String, Bool, some, [], Option-cases,
}
use event_observability_plat.Breaker.{CircuitBreaker}
use event_observability_plat.Retry.{backoff}
use event_observability_plat.Client.{Environment, Request, stopped, panicked, Turn, enter, turn}

-- A pass stops while it waits, or goes on to `Allow`.
pub data Paced (env : Environment) (req : Request) (last : Bool) (n : ℕ) (cb : CircuitBreaker)
    (t : Turn) : Type 0 where
  crashed : t ≡ (cb, [], some panicked) → Paced env req last n cb t
  gave_up : (e : String) → t ≡ (cb, [], some (stopped e)) → Paced env req last n cb t
  went : t ≡ enter env (env.exchange n) req last cb → Paced env req last n cb t

module _ (env : Environment) (req : Request) (last : Bool) where
  pub turn-Paced : (n : ℕ) (cb : CircuitBreaker) → Paced env req last n cb (turn env req last n cb)
  unfolding turn
  turn-Paced zero cb = went refl
  turn-Paced (suc n) cb = elim (Option-cases (backoff env.platform n n)) [
    | inl stuck ↦ crashed (rw (stuck, turn))
    | inr (d, drawn) ↦ elim (Option-cases (env.exchange (suc n)).cancelled) [
      | inl live ↦ went (ground arith)
      | inr (e, dead) ↦ gave_up e (rw (drawn, dead, turn))
    ]
  ]
