-- ===== src/Storage/Idempotency/Invariant.antt =====
-- The statements on idempotency_keys keep the tables well formed.
use mathlib.Core.Path.{subst}
use event_observability_plat.Common.{
  ◌≡◌, String, true, Bool-cases, Option, none, some, Option-cases, List, [], ◌∷◌, ◌++◌, ℤ, inl, inr,
}
use event_observability_plat.Errors.{Err}
use event_observability_plat.Domain.{Event, Entry}
use event_observability_plat.Runtime.{Machine}
use event_observability_plat.Runtime.Keeps.{Keeps, keeps_rules}
use event_observability_plat.Storage.Events.{find_row, is_some}
use event_observability_plat.Storage.Events.Invariant.{
  IsWellFormed, Refers, call-IsWellFormed, now-IsWellFormed,
}
use event_observability_plat.Storage.Idempotency.{
  Keys, find_key, insert_key, get_answer, set_answer, get, set,
}

Refers-append :
    (events : List Event) (keys : Keys) (key : String) (e : Entry)
    → is_some (find_row e.event_id events) ≡ true
    → Refers events keys
    → Refers events (keys ++ (key, e) ∷ [])
Refers-append events [] key e h r = (h, tt)
Refers-append events ((k, x) ∷ keys) key e h r = (r.0, Refers-append events keys key e h r.1)

insert_key-Refers :
    (key : String) (e : Entry) (events : List Event) (keys after : Keys)
    → insert_key key e events keys ≡ some after
    → Refers events keys
    → Refers events after
unfolding insert_key
insert_key-Refers key e events keys after h r = elim (Bool-cases (is_some (find_key key keys))) [
  | inl conflict ↦
      let same : some keys ≡ some after = rw (conflict, insert_key) at h in
      let e : keys ≡ after = cc same in subst (Refers events) e r
  | inr new ↦ elim (Bool-cases (is_some (find_row e.event_id events))) [
    | inl stored ↦
        let grown : some (keys ++ (key, e) ∷ []) ≡ some after = rw (new, stored, insert_key) at h in
        let g : keys ++ (key, e) ∷ [] ≡ after = cc grown in
        subst (Refers events) g (Refers-append events keys key e stored r)
    | inr missing ↦
        let refused : none ≡ some after = rw (new, missing, insert_key) at h in absurd (cc refused)
  ]
]

set_answer-IsWellFormed :
    (key : String) (e : Entry) (fault : Option Err) → Keeps IsWellFormed (set_answer key e fault)
unfolding set_answer
set_answer-IsWellFormed key e (some x) = record { at = λ w h. h }
set_answer-IsWellFormed key e none = record {
  at = λ w h. elim (Option-cases (insert_key key e w.events w.keys)) [
    | inl refused ↦ rw (refused, set_answer) h
    | inr (after, stored) ↦
        rw (stored, set_answer)
          (record {
            stamped = h.stamped;
            distinct = h.distinct;
            refers = insert_key-Refers key e w.events w.keys after stored h.refers;
          })
  ];
}

get_answer-IsWellFormed :
    (key : String) (t : ℤ) (fault : Option Err) → Keeps IsWellFormed (get_answer key t fault)
unfolding get_answer
get_answer-IsWellFormed key t (some x) = record { at = λ w h. h }
get_answer-IsWellFormed key t none = record { at = λ w h. h }

module _ (m : Machine) where
  pub get-Keeps : (key : String) → Keeps IsWellFormed (get m key)
  unfolding get
  get-Keeps key = search (keeps_rules, call-IsWellFormed, now-IsWellFormed, get_answer-IsWellFormed)

  pub set-Keeps : (key : String) (e : Entry) → Keeps IsWellFormed (set m key e)
  unfolding set
  set-Keeps key e = search (keeps_rules, call-IsWellFormed, set_answer-IsWellFormed)
