-- ===== src/Concurrent/Lost.antt =====
-- A request whose event is stored although it is told that it is not.
use mathlib.Core.Path.{subst}
use event_observability_plat.Common.{
  ◌+◌, ◌≡◌, refl, ap, ◌∙◌, arith, String, none, some, Option, [], ◌∷◌, ◌++◌,
}
use event_observability_plat.Errors.{Err, Result, ok}
use event_observability_plat.Domain.{Event, Entry}
use event_observability_plat.Runtime.{World, Machine, Message, now, new_uuid, call}
use event_observability_plat.Storage.Events.{insert, insert_answer}
use event_observability_plat.Storage.Idempotency.{find_key, unexpired}
use event_observability_plat.Storage.Idempotency
use event_observability_plat.Http.{Reply, webhook_response, write_json, respond_error}
use event_observability_plat.Http.Webhook.{WebhookHandler, WebhookRequest, Incoming, internal_error}
use event_observability_plat.Http.Webhook.Replay.{
  Reaches, Reaches-handle, IsSound, accept_quiet, accepted, added, new_id,
}
use event_observability_plat.Concurrent.{finished, doing, ◌>>=◌, healed, run}
use event_observability_plat.Concurrent.Requests.{
  looked_up_task, ingest_task, inserted_task, accept_task,
}
use event_observability_plat.Concurrent.Steps.{
  request, Part, part_of, state, begins, calls, unheard, Steps, here, next,
}
use event_observability_plat.Concurrent.Race.{
  call_gives, run_gives, part_of-request, get_new, after_get,
}
use event_observability_plat.Concurrent.Alone.{handle, run-handle}

module _ (m : Machine) (h : WebhookHandler) (q : WebhookRequest) (trace : String) (w : World)
    (s : IsSound m h w) where
  -- The world after the lookup, and that after an insertion with its effect.
  abbrev pub looked : World
  looked = after_get m h s.quiet w

  abbrev pub stored_once : World
  stored_once = record w {
    tick = w.tick + 1 + 1 + 1 + 1 + 1;
    events = w.events ++ added m h q trace w s ∷ [];
  }

  insert-healed :
      (insert (healed m) (added m h q trace w s) (record w { tick = w.tick + 1 + 1 + 1 + 1 })).1
      ≡ stored_once
  unfolding insert insert_answer call
  insert-healed = ground (arith, s.fresh)

  -- A request that has looked its key up is told that the insertion has failed.
  told :
      (lost : Err)
      → Steps (state w []) (
          state looked
            ((looked_up_task m h q trace (ok none) >>= λ reply. finished (some reply)) ∷ []))
      → Steps (state w []) (state stored_once (finished (some internal_error) ∷ []))
  unfolding looked_up_task ingest_task inserted_task accept_task ◌>>=◌ now new_uuid
  told lost steps =
      let numbered = next steps (calls (new_uuid m) _ looked [] []) in
      let timed = next numbered (calls (now m) _ _ [] []) in
      let written = next timed (unheard _ _ _ lost _ [] []) in
      subst (λ (w' : World). Steps (state w []) (state w' (finished (some internal_error) ∷ [])))
        insert-healed written

  -- The first request as a whole.
  first_told :
      (lost : Err) (first : Incoming)
      → first.trace_id ≡ trace
      → Reaches first q
      → find_key q.idempotency_key w.keys ≡ none
      → Steps (state w []) (state stored_once (finished (some internal_error) ∷ []))
  first_told lost first t r new =
      let k : Result (Option Entry) → Part =
        λ found. looked_up_task m h q first.trace_id found >>= λ reply. finished (some reply) in
      let begun : Steps (state w [])
          (state w (doing (Idempotency.get m q.idempotency_key) k ∷ [])) =
        rw⁻¹ (part_of-request m h first q r) (next here (begins (request m h first) w [])) in
      let steps : Steps (state w []) (state looked (k (ok none) ∷ [])) =
        call_gives (Idempotency.get m q.idempotency_key) k w [] [] _
          (get_new m h s.quiet q.idempotency_key w new) begun in
      told lost (rw t at steps)

module _ (m : Machine) (h : WebhookHandler) (first second : Incoming) (q q' : WebhookRequest)
    (w : World) (s : IsSound m h w) (s' : IsSound m h (stored_once m h q first.trace_id w s)) where
  -- The insertion of an event takes place, but its answer is lost. Then the request is answered 500 although
  -- its event is stored; the client sends it again, with the same key, and it is answered 202: both events are
  -- stored with the key, and the one message that is queued is about the second, so that nothing processes the
  -- first. The key is new, no other call fails, the ids are new, and there is a publisher.
  pub retry_stores_twice :
      (lost : Err)
      → Reaches first q
      → Reaches second q'
      → q'.idempotency_key ≡ q.idempotency_key
      → find_key q.idempotency_key w.keys ≡ none
      → (end : World) × (one : Reply) × (two : Reply) × Steps
          (state w [])
          (state end (finished (some one) ∷ finished (some two) ∷ []))
        × (one.status ≡ 500)
        × (two.status ≡ 202)
        × ((e : Event) × (e' : Event) × (e.idempotency_key ≡ q.idempotency_key)
            × (e'.idempotency_key ≡ q.idempotency_key)
            × (end.events ≡ (w.events ++ e ∷ []) ++ e' ∷ [])
            × ((x : Message) × (x.key ≡ e'.id) × (end.sent ≡ w.sent ++ x ∷ [])))
  unfolding write_json internal_error respond_error handle unexpired
  retry_stores_twice lost r r' same new =
      let w' = stored_once m h q first.trace_id w s in
      let new' : find_key q'.idempotency_key w'.keys ≡ none = rw same new in
      let reply =
        write_json 202 (webhook_response (new_id m h q' second.trace_id w' s') second.trace_id) in
      let end = accepted m h q' second.trace_id w' s' in
      let told_first = first_told m h q first.trace_id w s lost first refl r new in
      let p = part_of (request m h second) in
      let answered : Reply × World → Option Reply × World = λ out. (some out.0, out.1) in
      let dead : unexpired (m.clock w'.tick) (find_key q'.idempotency_key w'.keys) ≡ none =
        rw new' refl in
      let again : run p w' ≡ (some reply, end) =
        (run-handle (request m h second) w').0
        ∙ ap answered
            (Reaches-handle m h second q' w' r' ∙ accept_quiet m h q' second.trace_id w' s' dead) in
      (
        end,
        internal_error,
        reply,
        run_gives p w' (finished (some internal_error) ∷ []) [] (some reply, end) again
            (next told_first
              (begins (request m h second) w' (finished (some internal_error) ∷ []))),
        refl,
        refl,
        (
          added m h q first.trace_id w s,
          added m h q' second.trace_id w' s',
          refl,
          same,
          refl,
          (_, refl, refl),
        ),
      )
