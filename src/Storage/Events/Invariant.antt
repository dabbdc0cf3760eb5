-- ===== src/Storage/Events/Invariant.antt =====
-- What holds of the tables between two actions, and that every statement keeps it.
use event_observability_plat.Common.{
  ◌≡◌, refl, arith, String, str_eq, str_eq_iff, true, false, Bool-cases, Option, none, some,
  Option-cases, List, [], ◌∷◌, ◌++◌, All, ◌==◌, inl, inr, ℤ,
}
use event_observability_plat.Errors.{Err}
use event_observability_plat.Domain.{
  EventStatus, pending, processing, processed, failed, Event, Entry, is_processed,
}
use event_observability_plat.Runtime.{World, Machine, M, call, now, ◌>>=◌, tick}
use event_observability_plat.Runtime.Keeps.{Keeps, keeps_rules, Keeps-bind}
use event_observability_plat.Storage.Events.{
  find_row, update_rows, rows_affected, is_some, with_status, with_retry, insert, find_by_id,
  update_status, increment_retry, insert_answer, update_answer, find_answer, processed_time,
}
use event_observability_plat.Storage.Events.Rows.{KeepsId}

-- A row has a processing time exactly when its status is `processed`.
abbrev pub IsStamped : Event → Type 0
IsStamped e = is_processed e.status ≡ is_some e.processed_at

-- No two rows have one id.
abbrev pub Distinct : List Event → Type 0
Distinct [] = Unit
Distinct (e ∷ rows) = (find_row e.id rows ≡ none) × Distinct rows

-- Each idempotency key refers to an event that is stored.
abbrev pub Refers : List Event → List (String × Entry) → Type 0
Refers events [] = Unit
Refers events ((k, e) ∷ keys) = (is_some (find_row e.event_id events) ≡ true) × Refers events keys

pub record IsWellFormed (w : World) : Type 0 where
  pub stamped : All IsStamped w.events
  pub distinct : Distinct w.events
  pub refers : Refers w.events w.keys

IsStamped-update :
    (id : String) (f : Event → Event) (rows : List Event)
    → ((e : Event) → IsStamped e → IsStamped (f e))
    → All IsStamped rows
    → All IsStamped (update_rows id f rows)
unfolding update_rows
IsStamped-update id f [] h s = tt
IsStamped-update id f (e ∷ rows) h s = elim (Bool-cases (str_eq e.id id)) [
  | inl same ↦ rw same (h e s.0, IsStamped-update id f rows h s.1)
  | inr other ↦ rw other (s.0, IsStamped-update id f rows h s.1)
]

module _ (id : String) (f : Event → Event) (keeps : KeepsId f) where
  find_row-update_none :
      (j : String) (rows : List Event)
      → find_row j rows ≡ none
      → find_row j (update_rows id f rows) ≡ none
  unfolding find_row update_rows
  find_row-update_none j [] h = h
  find_row-update_none j (e ∷ rows) h = ground (arith, keeps e, find_row-update_none j rows)

  find_row-update_some :
      (j : String) (rows : List Event)
      → is_some (find_row j rows) ≡ true
      → is_some (find_row j (update_rows id f rows)) ≡ true
  unfolding find_row update_rows
  find_row-update_some j [] h = h
  find_row-update_some j (e ∷ rows) h = ground (arith, keeps e, find_row-update_some j rows)

  Distinct-update : (rows : List Event) → Distinct rows → Distinct (update_rows id f rows)
  unfolding update_rows
  Distinct-update [] d = tt
  Distinct-update (e ∷ rows) d = elim (Bool-cases (str_eq e.id id)) [
    | inl same ↦ rw (same, keeps e) (find_row-update_none e.id rows d.0, Distinct-update rows d.1)
    | inr other ↦ rw other (find_row-update_none e.id rows d.0, Distinct-update rows d.1)
  ]

  Refers-update :
      (rows : List Event) (keys : List (String × Entry))
      → Refers rows keys
      → Refers (update_rows id f rows) keys
  Refers-update rows [] r = tt
  Refers-update rows ((k, e) ∷ keys) r =
      (find_row-update_some e.event_id rows r.0, Refers-update rows keys r.1)

find_row-append_ne :
    (j : String) (rows : List Event) (e : Event)
    → find_row j rows ≡ none
    → str_eq e.id j ≡ false
    → find_row j (rows ++ e ∷ []) ≡ none
unfolding find_row
find_row-append_ne j [] e h n = ground arith
find_row-append_ne j (r ∷ rows) e h n = ground (arith, find_row-append_ne j rows e)

find_row-append_some :
    (j : String) (rows : List Event) (e : Event)
    → is_some (find_row j rows) ≡ true
    → is_some (find_row j (rows ++ e ∷ [])) ≡ true
unfolding find_row
find_row-append_some j [] e h = absurd (cc h)
find_row-append_some j (r ∷ rows) e h = ground (arith, find_row-append_some j rows e)

Distinct-append :
    (rows : List Event) (e : Event)
    → find_row e.id rows ≡ none
    → Distinct rows
    → Distinct (rows ++ e ∷ [])
unfolding find_row
Distinct-append [] e n d = (refl, tt)
Distinct-append (r ∷ rows) e n d = (
  ground (arith, find_row-append_ne r.id rows e d.0, str_eq_iff e.id r.id, str_eq_iff r.id e.id),
  Distinct-append rows e (ground arith) d.1,
)

IsStamped-append :
    (rows : List Event) (e : Event)
    → IsStamped e
    → All IsStamped rows
    → All IsStamped (rows ++ e ∷ [])
IsStamped-append [] e s h = (s, tt)
IsStamped-append (r ∷ rows) e s h = (h.0, IsStamped-append rows e s h.1)

Refers-append :
    (rows : List Event) (e : Event) (keys : List (String × Entry))
    → Refers rows keys
    → Refers (rows ++ e ∷ []) keys
Refers-append rows e [] r = tt
Refers-append rows e ((k, x) ∷ keys) r =
    (find_row-append_some x.event_id rows e r.0, Refers-append rows e keys r.1)

-- An action that leaves the two tables alone.
pub Keeps-same :
    {A : Type 0} (a : M A)
    → ((w : World) → (a w).1.events ≡ w.events)
    → ((w : World) → (a w).1.keys ≡ w.keys)
    → Keeps IsWellFormed a
Keeps-same a e k = record {
  at = λ w h. record {
    stamped = rw (e w) h.stamped;
    distinct = rw (e w) h.distinct;
    refers = rw (e w, k w) h.refers;
  };
}

update-IsWellFormed :
    (what id : String) (f : Event → Event)
    → KeepsId f
    → ((e : Event) → IsStamped e → IsStamped (f e))
    → (fault : Option Err) → Keeps IsWellFormed (update_answer what id f fault)
unfolding update_answer
update-IsWellFormed what id f keeps stamps (some x) = record { at = λ w h. h }
update-IsWellFormed what id f keeps stamps none = record {
  at = λ w h. elim (Bool-cases (rows_affected id w.events == 0)) [
    | inl no_row ↦ rw no_row h
    | inr row ↦ rw row (record {
      stamped = IsStamped-update id f w.events stamps h.stamped;
      distinct = Distinct-update id f keeps w.events h.distinct;
      refers = Refers-update id f keeps w.events w.keys h.refers;
    })
  ];
}

insert-IsWellFormed :
    (e : Event) → IsStamped e → (fault : Option Err) → Keeps IsWellFormed (insert_answer e fault)
unfolding insert_answer
insert-IsWellFormed e s (some x) = record { at = λ w h. h }
insert-IsWellFormed e s none = record {
  at = λ w h. elim (Option-cases (find_row e.id w.events)) [
    | inl fresh ↦ rw fresh (record {
      stamped = IsStamped-append w.events e s h.stamped;
      distinct = Distinct-append w.events e fresh h.distinct;
      refers = Refers-append w.events e w.keys h.refers;
    })
    | inr (old, taken) ↦ rw taken h
  ];
}

module _ (m : Machine) where
  pub call-IsWellFormed : Keeps IsWellFormed (call m)
  unfolding call
  call-IsWellFormed = Keeps-same (call m) (λ w. refl) (λ w. refl)

  pub now-IsWellFormed : Keeps IsWellFormed (now m)
  unfolding now
  now-IsWellFormed = Keeps-same (now m) (λ w. refl) (λ w. refl)

  pub insert-Keeps : (e : Event) → IsStamped e → Keeps IsWellFormed (insert m e)
  unfolding insert
  insert-Keeps e s = search (keeps_rules, call-IsWellFormed, insert-IsWellFormed)

  find_answer-IsWellFormed :
      (id : String) (fault : Option Err) → Keeps IsWellFormed (find_answer id fault)
  unfolding find_answer
  find_answer-IsWellFormed id (some x) = record { at = λ w h. h }
  find_answer-IsWellFormed id none = record { at = λ w h. h }

  pub find-Keeps : (id : String) → Keeps IsWellFormed (find_by_id m id)
  unfolding find_by_id
  find-Keeps id = search (keeps_rules, call-IsWellFormed, find_answer-IsWellFormed)

  status_update :
      (id : String) (s : EventStatus) (at : Option ℤ)
      → is_processed s ≡ is_some at
      → Keeps IsWellFormed (call m >>= update_answer "update event status" id (with_status s at))
  status_update id s at e =
      Keeps-bind IsWellFormed (call m) (update_answer "update event status" id (with_status s at))
        call-IsWellFormed
        (update-IsWellFormed "update event status" id (with_status s at) (λ r. refl) (λ r h. e))

  pub update_status-Keeps :
      (id : String) (s : EventStatus) → Keeps IsWellFormed (update_status m id s)
  unfolding update_status processed_time now
  update_status-Keeps id processed = record {
    at = λ w h.
        (status_update id processed (some (m.clock w.tick)) refl).at (tick w)
          (now-IsWellFormed.at w h);
  }
  update_status-Keeps id pending = status_update id pending none refl
  update_status-Keeps id processing = status_update id processing none refl
  update_status-Keeps id failed = status_update id failed none refl

  pub increment_retry-Keeps : (id : String) → Keeps IsWellFormed (increment_retry m id)
  unfolding increment_retry
  increment_retry-Keeps id =
      Keeps-bind IsWellFormed (call m) (update_answer "increment retry" id with_retry)
        call-IsWellFormed
        (update-IsWellFormed "increment retry" id with_retry (λ r. refl) (λ r h. h))
