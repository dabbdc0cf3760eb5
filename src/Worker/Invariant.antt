-- ===== src/Worker/Invariant.antt =====
-- The runs of the worker keep the tables well formed.
use event_observability_plat.Common.{
  refl, String, Bool, Bool-cases, ◌&&◌, inl, inr, Option, none, some, List, [], ◌∷◌,
}
use event_observability_plat.Errors.{Err, Result, ok, err}
use event_observability_plat.Domain.{EventMessage}
use event_observability_plat.Mapper.{unmarshal_event_message}
use event_observability_plat.Runtime.{World, Machine, M, Count, count}
use event_observability_plat.Runtime.Keeps.{Keeps, keeps_rules}
use event_observability_plat.Storage.Events.Invariant.{
  IsWellFormed, Keeps-same, update_status-Keeps,
}
use event_observability_plat.Messaging.Invariant.{publish-Keeps}
use event_observability_plat.Process.{ProcessEvent, Verdict, ProcessAction, done, retry, dlq}
use event_observability_plat.Process.Effects.{execute-Keeps}
use event_observability_plat.Worker.{
  Topics, Delivery, Fetch, fetch_failed, fetched, publish_value, publish_retry, publish_to_dlq,
  count_done, route, process_decoded, process_message, consume, run_processor, handle_parsed,
  handle_poison, run_dlq,
}

-- A loop keeps what its body keeps, whatever the broker and the context do.
pub consume-Keeps :
    (P : World → Type 0) (handle : Delivery → M (Unit {0})) (strict : Delivery → Bool)
    → ((d : Delivery) → Keeps P (handle d))
    → (fetches : List Fetch) → Keeps P (consume handle strict fetches)
unfolding consume
consume-Keeps P handle strict keeps [] = record { at = λ w h. h }
consume-Keeps P handle strict keeps (fetch_failed (some e) ∷ rest) = record { at = λ w h. h }
consume-Keeps P handle strict keeps (fetch_failed none ∷ rest) = record {
  at = λ w h. (consume-Keeps P handle strict keeps rest).at w h;
}
consume-Keeps P handle strict keeps (fetched d fails none ∷ rest) = record {
  at = λ w h.
      let more = (consume-Keeps P handle strict keeps rest).at (handle d w).1 ((keeps d).at w h) in
      elim (Bool-cases (fails && strict d)) [
        | inl lost ↦ rw (lost, consume) more
        | inr fine ↦ rw (fine, consume) more
      ];
}
consume-Keeps P handle strict keeps (fetched d fails (some e) ∷ rest) = record {
  at = λ w h.
      let handled = (keeps d).at w h in
      elim (Bool-cases (fails && strict d)) [
        | inl lost ↦ rw (lost, consume) handled
        | inr fine ↦
            rw (fine, consume)
              ((consume-Keeps P handle strict keeps rest).at (handle d w).1 handled)
      ];
}

pub count-Keeps : (c : Count) → Keeps IsWellFormed (count c)
count-Keeps c = Keeps-same (count c) (λ w. refl) (λ w. refl)

module _ (m : Machine) (topics : Topics) where
  publish_value-Keeps :
      (topic key : String) (v : Result String)
      → Keeps IsWellFormed (publish_value m topics topic key v)
  unfolding publish_value
  publish_value-Keeps topic key (ok v) = search (keeps_rules, publish-Keeps)
  publish_value-Keeps topic key (err e) = search keeps_rules

  count_done-Keeps :
      (source : String) (e : Option Err) → Keeps IsWellFormed (count_done m topics source e)
  unfolding count_done
  count_done-Keeps source none = search (keeps_rules, count-Keeps)
  count_done-Keeps source (some e) = search keeps_rules

  route-Keeps :
      (a : ProcessAction) (msg : EventMessage) (v : Verdict)
      → Keeps IsWellFormed (route m topics a msg v)
  unfolding route publish_retry publish_to_dlq
  route-Keeps done msg v = count_done-Keeps v.event_source v.error
  route-Keeps retry msg v = publish_value-Keeps topics.events msg.event_id _
  route-Keeps dlq msg v = search (keeps_rules, publish_value-Keeps, count-Keeps)

module _ (m : Machine) (uc : ProcessEvent) (topics : Topics) where
  decoded-Keeps : (r : Result EventMessage) → Keeps IsWellFormed (process_decoded m uc topics r)
  unfolding process_decoded
  decoded-Keeps (ok msg) = search (keeps_rules, execute-Keeps, route-Keeps)
  decoded-Keeps (err e) = search keeps_rules

  pub process_message-Keeps :
      (value : String) → Keeps IsWellFormed (process_message m uc topics value)
  unfolding process_message
  process_message-Keeps value = decoded-Keeps (unmarshal_event_message m.json_error value)

  pub run_processor-Keeps :
      (fetches : List Fetch) → Keeps IsWellFormed (run_processor m uc topics fetches)
  unfolding run_processor
  run_processor-Keeps fetches =
      consume-Keeps IsWellFormed _ _ (λ d. process_message-Keeps d.value) fetches

module _ (m : Machine) where
  parsed-Keeps : (r : Result EventMessage) → Keeps IsWellFormed (handle_parsed m r)
  unfolding handle_parsed
  parsed-Keeps (ok msg) = search (keeps_rules, update_status-Keeps)
  parsed-Keeps (err e) = search keeps_rules

  pub handle_poison-Keeps : (d : Delivery) → Keeps IsWellFormed (handle_poison m d)
  unfolding handle_poison
  handle_poison-Keeps d = parsed-Keeps (unmarshal_event_message m.json_error d.value)

  pub run_dlq-Keeps : (fetches : List Fetch) → Keeps IsWellFormed (run_dlq m fetches)
  unfolding run_dlq
  run_dlq-Keeps fetches = consume-Keeps IsWellFormed _ _ handle_poison-Keeps fetches
