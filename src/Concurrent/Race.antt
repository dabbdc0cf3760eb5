-- ===== src/Concurrent/Race.antt =====
-- Two requests with one idempotency key at the same time.
use mathlib.Core.Path.{subst}
use event_observability_plat.Common.{
  ℕ, ◌+◌, ◌≡◌, refl, ap, ◌∙◌, String, none, some, Option, List, [], ◌∷◌, ◌++◌,
}
use event_observability_plat.Errors.{Result, ok}
use event_observability_plat.Domain.{Event, Entry}
use event_observability_plat.Runtime.{World, Machine, M, events_processed}
use event_observability_plat.Storage.Idempotency.{find_key, unexpired}
use event_observability_plat.Storage.Idempotency
use event_observability_plat.Http.{Reply, webhook_response, write_json}
use event_observability_plat.Http.Webhook.{WebhookHandler, WebhookRequest, Incoming, after_lookup}
use event_observability_plat.Http.Webhook.Replay.{
  Reaches, IsSound, get_quiet, accept_looked, accepted, added, ingested, keys_after, new_id,
}
use event_observability_plat.Concurrent.{finished, doing, writing, ◌>>=◌, run, run-bind}
use event_observability_plat.Concurrent.Requests.{looked_up_task, run-looked_up, Reaches-request}
use event_observability_plat.Concurrent.Steps.{
  request, Part, part_of, State, state, begins, calls, writes, Steps, here, next,
}

-- A call whose answer is known.
pub call_gives :
    {s : State} {B : Type 0} (c : M B) (k : B → Part) (w : World) (before after : List Part)
    (out : B × World)
    → c w ≡ out
    → Steps s (state w (before ++ doing c k ∷ after))
    → Steps s (state out.1 (before ++ k out.0 ∷ after))
call_gives {s} c k w before after out e steps =
    subst (λ out. Steps s (state out.1 (before ++ k out.0 ∷ after))) e
      (next steps (calls c k w before after))

-- A part can be run to its end while the others wait.
pub Steps-run :
    {s : State} (p : Part) (w : World) (before after : List Part)
    → Steps s (state w (before ++ p ∷ after))
    → Steps s (state (run p w).1 (before ++ finished (run p w).0 ∷ after))
unfolding run
Steps-run (finished a) w before after steps = steps
Steps-run (doing c k) w before after steps =
    Steps-run (k (c w).0) (c w).1 before after (next steps (calls c k w before after))
Steps-run (writing c c' k) w before after steps =
    Steps-run (k (c w).0) (c w).1 before after (next steps (writes c c' k w before after))

-- A part whose run is known.
pub run_gives :
    {s : State} (p : Part) (w : World) (before after : List Part) (out : Option Reply × World)
    → run p w ≡ out
    → Steps s (state w (before ++ p ∷ after))
    → Steps s (state out.1 (before ++ finished out.0 ∷ after))
run_gives {s} p w before after out e steps =
    subst (λ out. Steps s (state out.1 (before ++ finished out.0 ∷ after))) e
      (Steps-run p w before after steps)

module _ (m : Machine) (h : WebhookHandler) where
  -- What follows the lookup of a request.
  waits : WebhookRequest → String → Part
  unfolding ◌>>=◌
  waits q trace = looked_up_task m h q trace (ok none) >>= λ reply. finished (some reply)

  run-waits :
      (q : WebhookRequest) (trace : String) (w : World)
      → run (waits q trace) w
        ≡ (some (after_lookup m h q trace (ok none) w).0, (after_lookup m h q trace (ok none) w).1)
  unfolding waits run
  run-waits q trace w =
      run-bind (looked_up_task m h q trace (ok none)) (λ reply. finished (some reply)) w
      ∙ ap (λ (out : Reply × World). (some out.0, out.1)) (run-looked_up m h q trace (ok none) w)

  pub part_of-request :
      (r : Incoming) (q : WebhookRequest)
      → Reaches r q
      → part_of (request m h r)
        ≡ doing
            (Idempotency.get m q.idempotency_key)
            (λ found. looked_up_task m h q r.trace_id found >>= λ reply. finished (some reply))
  unfolding part_of ◌>>=◌
  part_of-request r q s = rw (Reaches-request m h r q s) refl

module _ (m : Machine) (h : WebhookHandler) (quiet : (k : ℕ) → m.fault k ≡ none) where
  -- The world after a lookup.
  abbrev pub after_get : World → World
  after_get w = record w { tick = w.tick + 1 + 1 }

  pub get_new :
      (key : String) (w : World)
      → find_key key w.keys ≡ none
      → Idempotency.get m key w ≡ (ok none, after_get w)
  unfolding unexpired
  get_new key w new = get_quiet m h quiet key w ∙ rw new refl

-- The world after the first of them, one lookup earlier: before the second one's own lookup it would be this.
module _ (m : Machine) (h : WebhookHandler) (q : WebhookRequest) (trace : String) (w : World)
    (s : IsSound m h w) where
  abbrev pub settled : World
  settled = record (ingested m h q trace w s) {
    keys = keys_after m h q trace w s;
    counts = w.counts ++ events_processed q.source "accepted" ∷ [];
  }

  run_accepted : run (waits m h q trace) (after_get m h s.quiet w) ≡ (
    some (write_json 202 (webhook_response (new_id m h q trace w s) trace)),
    accepted m h q trace w s,
  )
  run_accepted =
      let kept : Reply × World → Option Reply × World = λ out. (some out.0, out.1) in
      run-waits m h q trace (after_get m h s.quiet w) ∙ ap kept (accept_looked m h q trace w s)

module _ (m : Machine) (h : WebhookHandler) (first second : Incoming) (q q' : WebhookRequest)
    (w : World) (s : IsSound m h (record w { tick = w.tick + 1 + 1 })) where
  -- The world after the lookup of the first, and that after the whole of the first.
  abbrev pub first_looked : World
  first_looked = record w { tick = w.tick + 1 + 1 }

  abbrev pub first_done : World
  first_done = settled m h q first.trace_id first_looked s

  both_look :
      Reaches first q
      → Reaches second q'
      → find_key q.idempotency_key w.keys ≡ none
      → find_key q'.idempotency_key w.keys ≡ none
      → Steps (state w []) (
          state
            (after_get m h s.quiet first_looked)
            (waits m h q first.trace_id ∷ waits m h q' second.trace_id ∷ []))
  unfolding waits
  both_look r r' new new' =
      let p = part_of (request m h first) in
      let p' = part_of (request m h second) in
      let begun : Steps (state w []) (state w (p ∷ p' ∷ [])) =
        next (next here (begins (request m h first) w []))
          (begins (request m h second) w (p ∷ [])) in
      let get = Idempotency.get m q.idempotency_key in
      let get' = Idempotency.get m q'.idempotency_key in
      let k : Result (Option Entry) → Part =
        λ found. looked_up_task m h q first.trace_id found >>= λ reply. finished (some reply) in
      let k' : Result (Option Entry) → Part =
        λ found. looked_up_task m h q' second.trace_id found >>= λ reply. finished (some reply) in
      let begun' : Steps (state w []) (state w (doing get k ∷ doing get' k' ∷ [])) =
        rw⁻¹ (part_of-request m h first q r) (rw⁻¹ (part_of-request m h second q' r') begun) in
      let one : Steps (state w []) (state first_looked (k (ok none) ∷ doing get' k' ∷ [])) =
        call_gives get k w [] (doing get' k' ∷ []) _ (get_new m h s.quiet q.idempotency_key w new)
          begun' in
      call_gives get' k' first_looked (k (ok none) ∷ []) [] _
        (get_new m h s.quiet q'.idempotency_key first_looked new') one

  -- Two requests with one new key can both be accepted: if each looks its key up before the other has stored it,
  -- both are answered 202, each with an event of its own that carries the key. No call fails, the ids are new, and
  -- there is a publisher.
  pub both_are_admitted :
      IsSound m h first_done
      → Reaches first q
      → Reaches second q'
      → q'.idempotency_key ≡ q.idempotency_key
      → find_key q.idempotency_key w.keys ≡ none
      → (end : World) × (one : Reply) × (two : Reply) × Steps
          (state w [])
          (state end (finished (some one) ∷ finished (some two) ∷ []))
        × (one.status ≡ 202)
        × (two.status ≡ 202)
        × ((e : Event) × (e' : Event) × (e.idempotency_key ≡ q.idempotency_key)
            × (e'.idempotency_key ≡ q.idempotency_key)
            × (end.events ≡ (w.events ++ e ∷ []) ++ e' ∷ []))
  unfolding write_json
  both_are_admitted s' r r' same new =
      let new' : find_key q'.idempotency_key w.keys ≡ none = rw same new in
      let one =
        write_json 202
          (webhook_response (new_id m h q first.trace_id first_looked s) first.trace_id) in
      let two =
        write_json 202
          (webhook_response (new_id m h q' second.trace_id first_done s') second.trace_id) in
      let p = waits m h q first.trace_id in
      let p' = waits m h q' second.trace_id in
      let looked = both_look r r' new new' in
      let halfway : Steps (state w [])
          (state (accepted m h q first.trace_id first_looked s) (finished (some one) ∷ p' ∷ [])) =
        run_gives p (after_get m h s.quiet first_looked) [] (p' ∷ []) _
          (run_accepted m h q first.trace_id first_looked s) looked in
      (
        accepted m h q' second.trace_id first_done s',
        one,
        two,
        run_gives p' (after_get m h s'.quiet first_done) (finished (some one) ∷ []) [] _
            (run_accepted m h q' second.trace_id first_done s') halfway,
        refl,
        refl,
        (
          added m h q first.trace_id first_looked s,
          added m h q' second.trace_id first_done s',
          refl,
          same,
          refl,
        ),
      )
