-- ===== src/Client/Results.antt =====
-- Which exchange with the server the result of `Do` comes from.
use event_observability_plat.Common.{
  ℕ, zero, suc, ◌+◌, ◌≤◌, ◌≡◌, ◌⊎◌, inl, inr, arith, ◌∙◌, ℤ, pos, String, Bool, true, false,
  Bool-cases, Option, Option-cases, some,
}
use event_observability_plat.Errors.{Err, wrapped, Result, ok, err}
use event_observability_plat.Breaker.{CircuitBreaker, allow}
use event_observability_plat.Retry.{retryable_status}
use event_observability_plat.Client.Turns.{crashed, gave_up, went, turn-Paced}
use event_observability_plat.Client.{
  Client, Environment, Exchange, Request, Response, Exit, broke, response, failed, enter, turn,
  loop, start, settle, do_once, read_answer, conclude, perform, whole, request_of,
}

-- A result that ends the loop before the last attempt.
abbrev Accepted : Result Response → Type 0
Accepted (ok r) = retryable_status r.status_code ≡ false
Accepted (err e) = ⊥

settle_broke :
    (last : Bool) (now : ℤ) (cb : CircuitBreaker) (r res : Result Response)
    → (settle last now cb r).1 ≡ some (broke res)
    → (r ≡ res) × ((last ≡ true) ⊎ Accepted res)
unfolding settle
settle_broke last now cb (ok r) (ok q) h = ground arith
settle_broke last now cb (ok r) (err e) h = ground arith
settle_broke last now cb (err e) res h = ground arith

enter_broke :
    (env : Environment) (ex : Exchange) (req : Request) (last : Bool) (cb : CircuitBreaker)
    (res : Result Response)
    → (enter env ex req last cb).2 ≡ some (broke res)
    → ((do_once env ex req).1 ≡ res) × ((last ≡ true) ⊎ Accepted res)
unfolding enter
enter_broke env ex req last cb res h = elim (Bool-cases (allow cb ex.allow_clock).1) [
  | inl admitted ↦
      settle_broke last ex.failure_clock (allow cb ex.allow_clock).0 (do_once env ex req).1 res
        (rw (admitted, enter) at h)
  | inr shut ↦ absurd (cc (shut, h))
]

turn_broke :
    (env : Environment) (req : Request) (last : Bool) (n : ℕ) (cb : CircuitBreaker)
    (res : Result Response)
    → (turn env req last n cb).2 ≡ some (broke res)
    → ((do_once env (env.exchange n) req).1 ≡ res) × ((last ≡ true) ⊎ Accepted res)
turn_broke env req last n cb res h = elim (turn-Paced env req last n cb) [
  | crashed e ↦ absurd (cc (e, h))
  | gave_up m e ↦ absurd (cc (e, h))
  | went e ↦ enter_broke env (env.exchange n) req last cb res (rw e at h)
]

-- The loop that starts at attempt a, with `left` more to come, ended with `res` at attempt k.
record EndsAt (env : Environment) (req : Request) (a left : ℕ) (res : Result Response) (k : ℕ)
    : Type 0 where
  from : a ≤ k
  upto : k ≤ a + left
  got : (do_once env (env.exchange k) req).1 ≡ res
  final : (k ≡ a + left) ⊎ Accepted res

EndsAt-suc :
    (env : Environment) (req : Request) (a left : ℕ) (res : Result Response) (k : ℕ)
    → EndsAt env req (suc a) left res k
    → (k : ℕ) × EndsAt env req a (suc left) res k
EndsAt-suc env req a left res k h = (
  k,
  record {
    from = omega (arith, h.from);
    upto = omega (arith, h.upto);
    got = h.got;
    final = ground (arith, h.final);
  },
)

only-Accepted : (res : Result Response) → (false ≡ true) ⊎ Accepted res → Accepted res
only-Accepted res (inl h) = absurd (cc h)
only-Accepted res (inr h) = h

loop_broke :
    (env : Environment) (req : Request) (left a : ℕ) (cb : CircuitBreaker) (res : Result Response)
    → (loop env req left a cb).2 ≡ some (broke res)
    → (k : ℕ) × EndsAt env req a left res k
unfolding loop
loop_broke env req zero a cb res h =
    let t = turn_broke env req true a cb res h in
    (a, record { from = omega arith; upto = omega arith; got = t.0; final = inl (omega arith) })
loop_broke env req (suc left) a cb res h = elim (Option-cases (turn env req false a cb).2) [
  | inl again ↦
      let rest =
        loop_broke env req left (suc a) (turn env req false a cb).0 res (rw (again, loop) at h) in
      EndsAt-suc env req a left res rest.0 rest.1
  | inr (x, left_by) ↦
      let left_here : some x ≡ some (broke res) = rw (left_by, loop) at h in
      let t = turn_broke env req false a cb res (left_by ∙ left_here) in
      (
        a,
        record {
          from = omega arith;
          upto = omega arith;
          got = t.0;
          final = inr (only-Accepted res t.1);
        },
      )
]

do_once_ok :
    (env : Environment) (ex : Exchange) (req : Request) (r : Response)
    → (do_once env ex req).1 ≡ ok r
    → ex.answer ≡ whole r
unfolding do_once read_answer
do_once_ok env ex req r h = ground arith

conclude_response :
    (c : Client) (method url : String) (x : Option Exit) (r : Response)
    → (conclude c method url x).1 ≡ response r
    → x ≡ some (broke (ok r))
unfolding conclude
conclude_response c method url x r h = ground arith

conclude_wrapped :
    (c : Client) (method url prefix : String) (x : Option Exit) (e : Err)
    → (conclude c method url x).1 ≡ failed (wrapped prefix e)
    → x ≡ some (broke (err e))
unfolding conclude
conclude_wrapped c method url prefix x e h = ground arith

start_broke :
    (env : Environment) (req : Request) (n : ℕ) (retries : ℤ) (cb : CircuitBreaker)
    (res : Result Response)
    → retries ≡ pos n
    → (start env req retries cb).2 ≡ some (broke res)
    → (k : ℕ) × EndsAt env req 0 n res k
unfolding start
start_broke env req n retries cb res e h = loop_broke env req n 0 cb res (rw (e, start) at h)

-- Where `Do` returns a response, it is the whole answer to an attempt k ≤ `MaxRetries`, and either its
-- status is not retryable or k is the last attempt that `MaxRetries` allows. Where `Do` returns the
-- error of an attempt, that was the last attempt allowed: no failure of an earlier one is reported so.
pub perform_final :
    (env : Environment) (c : Client) (method path : String) (body : Option String) (n : ℕ)
    → c.max_retries ≡ pos n
    → ((r : Response)
        → (perform env c method path body).2 ≡ response r
        → (k : ℕ) × (k ≤ n)
          × ((env.exchange k).answer ≡ whole r)
          × ((k ≡ n) ⊎ (retryable_status r.status_code ≡ false)))
      × ((prefix : String) (e : Err)
          → (perform env c method path body).2 ≡ failed (wrapped prefix e)
          → (do_once env (env.exchange n) (request_of env c method path body)).1 ≡ err e)
unfolding perform
perform_final env c method path body n e =
    let req = request_of env c method path body in
    let begun = start_broke env req n c.max_retries c.breaker in
    (
      λ r h.
          let x = begun (ok r) e (conclude_response _ method req.url _ r h) in
          (
            x.0,
            omega (arith, x.1.upto),
            do_once_ok env (env.exchange x.0) req r x.1.got,
            ground (arith, x.1.final),
          ),
      λ prefix f h.
          let x = begun (err f) e (conclude_wrapped _ method req.url prefix _ f h) in
          let last : x.0 ≡ n = ground (arith, x.1.final) in rw last at x.1.got,
    )
