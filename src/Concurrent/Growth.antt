-- ===== src/Concurrent/Growth.antt =====
-- What only grows, and what of a stored event never changes.
pub mod Calls
use mathlib.Core.List.{append_assoc, append-nil}
use event_observability_plat.Common.{
  ℕ, ◌+◌, ◌≤◌, ◌≡◌, ◌⊎◌, refl, sym, ◌∙◌, ap, arith, String, str_eq, Bool, true, false, Bool-cases,
  ◌==◌, inl, inr, Option, Option-cases, none, some, List, [], ◌∷◌, ◌++◌, ℤ,
}
use event_observability_plat.Errors.{Err}
use event_observability_plat.Domain.{
  EventStatus, pending, processing, processed, failed, Event, Entry,
}
use event_observability_plat.Runtime.{
  World, Machine, M, Count, count, LogRow, Message, call, now, new_uuid, tick,
}
use event_observability_plat.Runtime.Keeps.{Keeps, Keeps-bind, Keeps-pure, keeps_rules}
use event_observability_plat.Storage.Events.{
  find_row, is_some, update_rows, rows_affected, insert, find_by_id, update_status, increment_retry,
  insert_answer, update_answer, find_answer, processed_time, with_status, with_retry,
}
use event_observability_plat.Storage.Idempotency.{
  find_key, insert_key, get_answer, set_answer, get, set,
}
use event_observability_plat.Storage.Analytics.{
  write_event, batch_answer, append_answer, send_answer,
}
use event_observability_plat.Messaging.{publish, publish_answer}
use event_observability_plat.Concurrent.Steps.{State, state, Steps}
use event_observability_plat.Concurrent.Parts.{CallsKeep, Steps-kept}

-- A row that is still that of the event: only its status, its processing time and its retries may differ; the retries
-- are no fewer, and the status is not `pending` again.
pub record StaysEvent (e r : Event) : Type 0 where
  pub id : r.id ≡ e.id
  pub key : r.idempotency_key ≡ e.idempotency_key
  pub source : r.source ≡ e.source
  pub event_type : r.event_type ≡ e.event_type
  pub payload : r.payload ≡ e.payload
  pub created_at : r.created_at ≡ e.created_at
  pub retries : e.retry_count ≤ r.retry_count
  pub begun : r.status ≡ pending → e.status ≡ pending

-- The rows are there still, in their order, with others behind them.
abbrev pub StayRows : List Event → List Event → Type 0
StayRows [] rows = Unit
StayRows (e ∷ es) [] = ⊥
StayRows (e ∷ es) (r ∷ rows) = StaysEvent e r × StayRows es rows

abbrev pub Grows : {A : Type 0} → List A → List A → Type 0
Grows {A} xs ys = (more : List A) × (ys ≡ xs ++ more)

abbrev pub Extends : World → World → Type 0
Extends w w' =
    StayRows w.events w'.events
    × Grows w.keys w'.keys
    × Grows w.log w'.log
    × Grows w.sent w'.sent
    × Grows w.counts w'.counts

StaysEvent-trans : (a b c : Event) → StaysEvent a b → StaysEvent b c → StaysEvent a c
StaysEvent-trans a b c h g = record {
  id = g.id ∙ h.id;
  key = g.key ∙ h.key;
  source = g.source ∙ h.source;
  event_type = g.event_type ∙ h.event_type;
  payload = g.payload ∙ h.payload;
  created_at = g.created_at ∙ h.created_at;
  retries = omega (arith, h.retries, g.retries);
  begun = λ p. h.begun (g.begun p);
}

StaysEvent-refl : (e : Event) → StaysEvent e e
StaysEvent-refl e = record {
  id = refl;
  key = refl;
  source = refl;
  event_type = refl;
  payload = refl;
  created_at = refl;
  retries = omega arith;
  begun = λ p. p;
}

StayRows-refl : (rows : List Event) → StayRows rows rows
StayRows-refl [] = tt
StayRows-refl (e ∷ rows) = (StaysEvent-refl e, StayRows-refl rows)

pub StayRows-append :
    (es rows : List Event) (x : Event) → StayRows es rows → StayRows es (rows ++ x ∷ [])
StayRows-append [] rows x h = tt
StayRows-append (e ∷ es) [] x h = absurd h
StayRows-append (e ∷ es) (r ∷ rows) x h = (h.0, StayRows-append es rows x h.1)

pub StayRows-update :
    (id : String) (f : Event → Event) (es rows : List Event)
    → ((e : Event) → StaysEvent e (f e))
    → StayRows es rows
    → StayRows es (update_rows id f rows)
unfolding update_rows
StayRows-update id f [] rows same h = tt
StayRows-update id f (e ∷ es) [] same h = absurd h
StayRows-update id f (e ∷ es) (r ∷ rows) same h = elim (Bool-cases (str_eq r.id id)) [
  | inl b ↦ rw b (StaysEvent-trans e r (f r) h.0 (same r), StayRows-update id f es rows same h.1)
  | inr b ↦ rw b (h.0, StayRows-update id f es rows same h.1)
]

Grows-refl : {A : Type 0} (xs : List A) → Grows xs xs
Grows-refl xs = ([], sym (append-nil xs))

pub Grows-append : {A : Type 0} (xs ys : List A) (x : A) → Grows xs ys → Grows xs (ys ++ x ∷ [])
Grows-append xs ys x (more, e) =
    (more ++ x ∷ [], ap (λ (l : List _). l ++ x ∷ []) e ∙ append_assoc xs more (x ∷ []))

pub Extends-refl : (w : World) → Extends w w
Extends-refl w = (
  StayRows-refl w.events,
  Grows-refl w.keys,
  Grows-refl w.log,
  Grows-refl w.sent,
  Grows-refl w.counts,
)
