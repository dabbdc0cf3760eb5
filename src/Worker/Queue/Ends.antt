-- ===== src/Worker/Queue/Ends.antt =====
-- The worker comes to the end of the events topic.
use mathlib.Core.List.{append-nil}
use event_observability_plat.Common.{
  ℕ, zero, suc, ◌+◌, ◌≤◌, ◌<◌, ◌≡◌, ◌≢◌, ◌⊎◌, inl, inr, refl, ap, sym, ◌∙◌, arith, String,
  str_eq_iff, Option, none, some, List, [], ◌∷◌, ◌++◌, pos, ◌<ℤ◌, +ℤ_parts,
}
use event_observability_plat.Errors.{Err, ok, Result-cases}
use event_observability_plat.Domain.{EventMessage}
use event_observability_plat.Mapper.{encode, marshal_event_message, unmarshal_event_message}
use event_observability_plat.Mapper.RoundTrip.{unmarshal-marshal}
use event_observability_plat.Mapper.Bounds.{decode-IsInt64, decode_of_unmarshal, IsInt64-next}
use event_observability_plat.Json.Numerals.{IsInt64}
use event_observability_plat.Runtime.{World, Machine, Message, call}
use event_observability_plat.Messaging.{publish, publish_answer}
use event_observability_plat.Ingest.Success.{message_of}
use event_observability_plat.Process.{
  ProcessEvent, Verdict, ProcessAction, done, retry, dlq, execute,
}
use event_observability_plat.Process.Verdicts.{execute-IsDecided}
use event_observability_plat.Process.Frame.{execute-Frame}
use event_observability_plat.Worker.{
  Topics, publish_value, publish_retry, publish_to_dlq, count_done, route, process_decoded,
  process_message,
}
use event_observability_plat.Worker.Retries.{retry_of}
use event_observability_plat.Worker.Queue.{
  values_of, drop, work_off, value_work, queue_work, queue_work-append, values_of-append,
  values_of-own, drop-append, Adds,
}

module _ (m : Machine) (uc : ProcessEvent) (topics : Topics) (range : IsInt64 uc.max_retries)
    (apart : topics.dlq ≢ topics.events) where
  value_work_pos : (v : String) → 0 < value_work m uc v
  value_work_pos v = ground arith

  kept-Adds :
      (v : String) (w w' : World)
      → values_of topics.events w'.sent ≡ values_of topics.events w.sent
      → Adds m uc topics v w w'
  unfolding queue_work
  kept-Adds v w w' e = ([], e ∙ sym (append-nil _), value_work_pos v)

  publish_sent :
      (topic key value : String) (w : World)
      → ((publish m topic key value w).1.sent ≡ w.sent)
        ⊎ ((publish m topic key value w).1.sent ≡ w.sent ++ message_of m topic key value ∷ [])
  unfolding publish publish_answer call
  publish_sent topic key value w = ground arith

  values_of-other :
      (x : Message) (xs : List Message)
      → x.topic ≢ topics.events
      → values_of topics.events (xs ++ x ∷ []) ≡ values_of topics.events xs
  unfolding values_of
  values_of-other x xs ne = ground (
    arith,
    values_of-append topics.events xs (x ∷ []),
    append-nil (values_of topics.events xs),
    str_eq_iff x.topic topics.events,
  )

  dlq-Adds :
      (v : String) (msg : EventMessage) (w : World)
      → Adds m uc topics v w (publish_to_dlq m topics msg w).1
  unfolding publish_to_dlq publish_value marshal_event_message
  dlq-Adds v msg w =
      let value = encode msg in
      let message = message_of m topics.dlq msg.event_id value in
      let after = (publish m topics.dlq msg.event_id value w).1 in
      elim (publish_sent topics.dlq msg.event_id value w) [
        | inl kept ↦ kept-Adds v w after (ap (values_of topics.events) kept)
        | inr put ↦
            kept-Adds v w after
              (ap (values_of topics.events) put ∙ values_of-other message w.sent apart)
      ]

  -- A message that was decoded, and can be retried, has a next attempt that is an int of 64 bits.
  retry_range :
      (v : String) (msg : EventMessage)
      → unmarshal_event_message m.json_error v ≡ ok msg
      → msg.attempt <ℤ uc.max_retries
      → IsInt64 (retry_of msg).attempt
  retry_range v msg parsed below =
      IsInt64-next msg.attempt uc.max_retries
        (decode-IsInt64 v msg (decode_of_unmarshal m.json_error v msg parsed)) range below

  retry-Adds :
      (v : String) (msg : EventMessage) (w : World)
      → unmarshal_event_message m.json_error v ≡ ok msg
      → msg.attempt <ℤ uc.max_retries
      → Adds m uc topics v w (publish_retry m topics msg w).1
  unfolding publish_retry publish_value queue_work marshal_event_message
  retry-Adds v msg w parsed below =
      let value = encode (retry_of msg) in
      let message = message_of m topics.events msg.event_id value in
      let back =
        (unmarshal-marshal m.json_error (retry_of msg) (retry_range v msg parsed below)).1 in
      let less : value_work m uc value + 0 < value_work m uc v =
        rw (parsed, value_work)
          (rw (back, value_work) (omega (arith, +ℤ_parts msg.attempt (pos 1)))) in
      elim (publish_sent topics.events msg.event_id value w) [
        | inl kept ↦
            kept-Adds v w (publish m topics.events msg.event_id value w).1
              (ap (values_of topics.events) kept)
        | inr put ↦ (
          value ∷ [],
          ap (values_of topics.events) put ∙ values_of-own topics.events message w.sent refl,
          less,
        )
      ]

  done_sent :
      (source : String) (error : Option Err) (w : World)
      → (count_done m topics source error w).1.sent ≡ w.sent
  unfolding count_done
  done_sent source (some e) w = refl
  done_sent source none w = ground arith

  route-Adds :
      (v : String) (msg : EventMessage) (verdict : Verdict) (w : World)
      → unmarshal_event_message m.json_error v ≡ ok msg
      → (verdict.action ≡ retry → msg.attempt <ℤ uc.max_retries)
      → (action : ProcessAction) → verdict.action ≡ action
      → Adds m uc topics v w (route m topics action msg verdict w).1
  unfolding route count_done
  route-Adds v msg verdict w parsed below done e =
      let after = (count_done m topics verdict.event_source verdict.error w).1 in
      kept-Adds v w after
        (ap (values_of topics.events) (done_sent verdict.event_source verdict.error w))
  route-Adds v msg verdict w parsed below retry e = retry-Adds v msg w parsed (below e)
  route-Adds v msg verdict w parsed below dlq e = dlq-Adds v msg w

  process-Adds : (v : String) (w : World) → Adds m uc topics v w (process_message m uc topics v w).1
  unfolding process_message process_decoded
  process-Adds v w = elim (Result-cases (unmarshal_event_message m.json_error v)) [
    | inr (e, bad) ↦ rw (bad, process_decoded) (kept-Adds v w w refl)
    | inl (msg, parsed) ↦
        let ran = execute m uc msg w in
        let kept : ran.1.sent ≡ w.sent =
          ((execute-Frame w.sent w.keys w.counts m uc msg).at w
            (record { sent_kept = refl; keys_kept = refl; counts_kept = refl })).sent_kept in
        let below : ran.0.action ≡ retry → msg.attempt <ℤ uc.max_retries =
          λ e. ((execute-IsDecided m uc msg w).below e).0 in
        let (added, put, less) = route-Adds v msg ran.0 ran.1 parsed below ran.0.action refl in
        rw (parsed, process_decoded)
          (added, put ∙ ap (λ (q : List Message). values_of topics.events q ++ added) kept, less)
  ]

  list-cases :
      (xs : List String) → (xs ≡ []) ⊎ ((v : String) × (rest : List String) × (xs ≡ v ∷ rest))
  list-cases [] = inl refl
  list-cases (v ∷ rest) = inr (v, rest, refl)

  WorksOff : ℕ → ℕ → World → Type 0
  WorksOff rounds k w =
      (end : ℕ) × ((work_off m uc topics rounds k w).0 ≡ some end)
      × (drop end (values_of topics.events (work_off m uc topics rounds k w).1.sent) ≡ [])

  nothing_left :
      (rounds k : ℕ) (w : World)
      → drop k (values_of topics.events w.sent) ≡ []
      → WorksOff (suc rounds) k w
  unfolding work_off WorksOff
  nothing_left rounds k w e = (k, rw (e, work_off) refl, rw (e, work_off) e)

  one_more :
      (rounds k : ℕ) (w : World) (v : String) (rest : List String)
      → drop k (values_of topics.events w.sent) ≡ v ∷ rest
      → WorksOff rounds (suc k) (process_message m uc topics v w).1
      → WorksOff (suc rounds) k w
  unfolding work_off WorksOff
  one_more rounds k w v rest e later = rw (e, work_off) later

  -- Whatever fails and however often, the worker comes to the end of its queue: it handles at most as many messages
  -- as there is work in the queue, a message that does not parse counting for one and any other for one and the retries
  -- that it has left, and then finds none that it has not handled. The two topics are not one, and `maxRetries` is
  -- an int of 64 bits.
  pub work_off-ends :
      (rounds k : ℕ) (w : World)
      → queue_work m uc (drop k (values_of topics.events w.sent)) ≤ rounds
      → (end : ℕ) × ((work_off m uc topics (suc rounds) k w).0 ≡ some end)
        × (drop end (values_of topics.events (work_off m uc topics (suc rounds) k w).1.sent) ≡ [])
  unfolding queue_work WorksOff
  work_off-ends zero k w h = elim (list-cases (drop k (values_of topics.events w.sent))) [
    | inl e ↦ nothing_left zero k w e
    | inr (v, rest, e) ↦ absurd (omega (arith, value_work_pos v, ap (queue_work m uc) e))
  ]
  work_off-ends (suc rounds) k w h = elim (list-cases (drop k (values_of topics.events w.sent))) [
    | inl e ↦ nothing_left (suc rounds) k w e
    | inr (v, rest, e) ↦
        let (added, put, less) = process-Adds v w in
        let behind =
          ap (drop (suc k)) put ∙ drop-append k (values_of topics.events w.sent) added v rest e in
        let bound : queue_work m uc
              (drop (suc k) (values_of topics.events (process_message m uc topics v w).1.sent))
            ≤ rounds =
          rw behind
            (omega (arith, less, queue_work-append m uc rest added, ap (queue_work m uc) e)) in
        one_more (suc rounds) k w v rest e
          (work_off-ends rounds (suc k) (process_message m uc topics v w).1 bound)
  ]
