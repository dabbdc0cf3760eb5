-- ===== src/Storage/Events/Listed.antt =====
-- What `ListByStatus` selects, and in which order.
use event_observability_plat.Common.{
  ℕ, zero, suc, ◌≤◌, ◌≡◌, inl, inr, arith, true, Bool-cases, Option-cases, List, [], ◌∷◌, ◌++◌, All,
  length, ℤ, pos, ◌≤ℤ◌, leb_ℤ,
}
use mathlib.Core.List.{append-nil, append_assoc}
use event_observability_plat.Errors.{ok}
use event_observability_plat.Domain.{EventStatus, Event}
use event_observability_plat.Runtime.{World, Machine, call, tick}
use event_observability_plat.Storage.Events.{
  same_status, insert_by_time, select_by_status, take, scan_rows, list_answer, list_by_status,
}

-- The events of a list are in the order of their creation.
abbrev pub IsOrdered : List Event → Type 0
IsOrdered [] = Unit
IsOrdered (e ∷ rows) = All (λ r. e.created_at ≤ℤ r.created_at) rows × IsOrdered rows

same_status-eq : (a b : EventStatus) → same_status a b ≡ true → a ≡ b
unfolding same_status
same_status-eq a b h = ground arith

All-insert :
    (P : Event → Type 0) (e : Event) (rows : List Event)
    → P e
    → All P rows
    → All P (insert_by_time e rows)
unfolding insert_by_time
All-insert P e [] p h = (p, tt)
All-insert P e (r ∷ rows) p h = elim (Bool-cases (leb_ℤ e.created_at r.created_at)) [
  | inl b ↦ rw b (p, h)
  | inr b ↦ rw b (h.0, All-insert P e rows p h.1)
]

All-later :
    (a b : ℤ) (rows : List Event)
    → a ≤ℤ b
    → All (λ r. b ≤ℤ r.created_at) rows
    → All (λ r. a ≤ℤ r.created_at) rows
All-later a b [] h all = tt
All-later a b (r ∷ rows) h all = (omega arith, All-later a b rows h all.1)

insert-IsOrdered :
    (e : Event) (rows : List Event) → IsOrdered rows → IsOrdered (insert_by_time e rows)
unfolding insert_by_time
insert-IsOrdered e [] h = (tt, tt)
insert-IsOrdered e (r ∷ rows) h = elim (Bool-cases (leb_ℤ e.created_at r.created_at)) [
  | inl b ↦
      let first : e.created_at ≤ℤ r.created_at = ground (arith, b) in
      rw b ((first, All-later e.created_at r.created_at rows first h.0), h)
  | inr b ↦
      let later : r.created_at ≤ℤ e.created_at = ground (arith, b) in
      rw b (
        All-insert (λ x. r.created_at ≤ℤ x.created_at) e rows later h.0,
        insert-IsOrdered e rows h.1,
      )
]

-- Ordered, and all of one status.
abbrev pub IsSelection : EventStatus → List Event → Type 0
IsSelection s rows = IsOrdered rows × All (λ r. r.status ≡ s) rows

select-IsSelection : (s : EventStatus) (rows : List Event) → IsSelection s (select_by_status s rows)
unfolding select_by_status
select-IsSelection s [] = (tt, tt)
select-IsSelection s (e ∷ rows) =
    let rest = select-IsSelection s rows in
    elim (Bool-cases (same_status e.status s)) [
      | inl b ↦ rw b (
        insert-IsOrdered e (select_by_status s rows) rest.0,
        All-insert (λ r. r.status ≡ s) e (select_by_status s rows) (same_status-eq e.status s b)
            rest.1,
      )
      | inr b ↦ rw b rest
    ]

All-take : (P : Event → Type 0) (n : ℕ) (rows : List Event) → All P rows → All P (take n rows)
unfolding take
All-take P zero rows h = tt
All-take P (suc n) [] h = tt
All-take P (suc n) (e ∷ rows) h = (h.0, All-take P n rows h.1)

take-IsOrdered : (n : ℕ) (rows : List Event) → IsOrdered rows → IsOrdered (take n rows)
unfolding take
take-IsOrdered zero rows h = tt
take-IsOrdered (suc n) [] h = tt
take-IsOrdered (suc n) (e ∷ rows) h =
    (All-take (λ r. e.created_at ≤ℤ r.created_at) n rows h.0, take-IsOrdered n rows h.1)

length-take : (n : ℕ) (rows : List Event) → length (take n rows) ≤ n
unfolding take
length-take zero rows = omega arith
length-take (suc n) [] = omega arith
length-take (suc n) (e ∷ rows) = omega (arith, length-take n rows)

scan_ok :
    (m : Machine) (acc rows got : List Event) (w : World)
    → (scan_rows m acc rows w).0 ≡ ok got
    → got ≡ acc ++ rows
unfolding scan_rows call
scan_ok m acc [] got w h = ground (arith, append-nil acc)
scan_ok m acc (e ∷ rows) got w h =
    ground (arith, scan_ok m (acc ++ e ∷ []) rows got (tick w), append_assoc acc (e ∷ []) rows)

-- Whatever calls fail, the events that `ListByStatus` returns for a limit n are at most n, all of the status asked for,
-- and the first n of the stored events of that status in the order of their creation.
pub list_by_status_ok :
    (m : Machine) (s : EventStatus) (n : ℕ) (w : World) (got : List Event)
    → (list_by_status m s (pos n) w).0 ≡ ok got
    → (got ≡ take n (select_by_status s w.events)) × (length got ≤ n) × IsSelection s got
unfolding list_by_status list_answer call
list_by_status_ok m s n w got h =
    let same : got ≡ take n (select_by_status s w.events) = elim (Option-cases (m.fault w.tick)) [
      | inl e ↦
          scan_ok m [] (take n (select_by_status s w.events)) got (tick w) (ground (arith, h, e))
      | inr (x, e) ↦ absurd (ground (arith, h, e))
    ] in
    let all = select-IsSelection s w.events in
    (
      same,
      rw same (length-take n (select_by_status s w.events)),
      rw same (
        take-IsOrdered n (select_by_status s w.events) all.0,
        All-take (λ r. r.status ≡ s) n (select_by_status s w.events) all.1,
      ),
    )
