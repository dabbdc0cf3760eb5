-- ===== src/Client/Attempts.antt =====
-- How many requests a call of `Do` sends, and what its answer stands for.
use event_observability_plat.Common.{
  ℕ, zero, suc, ◌≤◌, ◌≡◌, inl, inr, refl, arith, length, All, ℤ, pos, negsuc, String, Bool, true,
  false, Option, Option-cases, List, [], ◌∷◌, ◌++◌,
}
use event_observability_plat.Breaker.{CircuitBreaker}
use event_observability_plat.Client.Turns.{crashed, gave_up, went, turn-Paced}
use event_observability_plat.Client.{
  Client, Environment, Exchange, Request, request_of, enter, turn, loop, start, perform, do_once,
}

-- One pass of the loop sends the request once at most.
data Sends (req : Request) (sent : List Request) : Type 0 where
  nothing : sent ≡ [] → Sends req sent
  once : sent ≡ req ∷ [] → Sends req sent

enter-Sends :
    (env : Environment) (ex : Exchange) (req : Request) (last : Bool) (cb : CircuitBreaker)
    → Sends req (enter env ex req last cb).1
unfolding enter do_once
enter-Sends env ex req last cb = grind (arith, nothing, once)

turn-Sends :
    (env : Environment) (req : Request) (last : Bool) (n : ℕ) (cb : CircuitBreaker)
    → Sends req (turn env req last n cb).1
turn-Sends env req last n cb = elim (turn-Paced env req last n cb) [
  | crashed e ↦ nothing (rw e)
  | gave_up m e ↦ nothing (rw e)
  | went e ↦ rw e (enter-Sends env (env.exchange n) req last cb)
]

-- At most n requests, and each of them `req`.
abbrev pub AtMost : Request → ℕ → List Request → Type 0
AtMost req n sent = (length sent ≤ n) × All (λ r. r ≡ req) sent

AtMost-none : (req : Request) (n : ℕ) (sent : List Request) → sent ≡ [] → AtMost req n sent
AtMost-none req n sent e = rw e (omega arith, tt)

AtMost-prepend :
    (req : Request) (n : ℕ) (sent rest : List Request)
    → Sends req sent
    → AtMost req n rest
    → AtMost req (suc n) (sent ++ rest)
AtMost-prepend req n sent rest (nothing e) h = rw e (omega arith, h.1)
AtMost-prepend req n sent rest (once e) h = rw e (omega arith, (refl, h.1))

turn-AtMost :
    (env : Environment) (req : Request) (left : ℕ) (last : Bool) (n : ℕ) (cb : CircuitBreaker)
    → AtMost req (suc left) (turn env req last n cb).1
turn-AtMost env req left last n cb = elim (turn-Sends env req last n cb) [
  | nothing e ↦ AtMost-none req (suc left) _ e
  | once e ↦ rw e (omega arith, (refl, tt))
]

loop-AtMost :
    (env : Environment) (req : Request) (left n : ℕ) (cb : CircuitBreaker)
    → AtMost req (suc left) (loop env req left n cb).1
unfolding loop
loop-AtMost env req zero n cb = turn-AtMost env req zero true n cb
loop-AtMost env req (suc left) n cb = elim (Option-cases (turn env req false n cb).2) [
  | inl again ↦
      rw (again, loop)
        (AtMost-prepend req (suc left) _ _ (turn-Sends env req false n cb)
          (loop-AtMost env req left (suc n) (turn env req false n cb).0))
  | inr (x, left_by) ↦ rw (left_by, loop) (turn-AtMost env req (suc left) false n cb)
]

-- The bound on the attempts that `MaxRetries` sets.
abbrev pub attempts : ℤ → ℕ
attempts (pos n) = suc n
attempts (negsuc n) = 0

start-AtMost :
    (env : Environment) (req : Request) (retries : ℤ) (cb : CircuitBreaker)
    → AtMost req (attempts retries) (start env req retries cb).1
unfolding start
start-AtMost env req (pos n) cb = loop-AtMost env req n 0 cb
start-AtMost env req (negsuc n) cb = (omega arith, tt)

-- Whatever the network answers, one call of `Do` sends at most `MaxRetries` + 1 requests (none when
-- `MaxRetries` is negative), and each of them is the request that the arguments and the client's
-- base URL and headers make.
pub perform-AtMost :
    (env : Environment) (c : Client) (method path : String) (body : Option String)
    → AtMost
        (request_of env c method path body)
        (attempts c.max_retries)
        (perform env c method path body).1
unfolding perform
perform-AtMost env c method path body =
    start-AtMost env (request_of env c method path body) c.max_retries c.breaker
