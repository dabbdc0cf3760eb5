-- ===== src/Storage/Events.antt =====
-- internal/infra/storage/postgres/event_repository.go over the table webhook_events.
-- The SQL is given its meaning on a list of rows; `id` is the primary key.
pub mod Rows
pub mod Invariant
pub mod Statements
pub mod Listed
use event_observability_plat.Common.{
  ℕ, zero, suc, ◌+◌, String, Bool, true, false, ◌==◌, str_eq, Option, none, some, List, [], ◌∷◌,
  ◌++◌, if◌then◌else◌, ℤ, pos, negsuc, leb_ℤ,
}
use event_observability_plat.Errors.{Err, not_found, external, wrapped, Result, ok, err}
use event_observability_plat.Domain.{
  EventStatus, pending, processing, processed, failed, Event, is_processed,
}
use event_observability_plat.Runtime.{World, Machine, M, ◌>>=◌, ◌>>◌, pure, gets, modify, call, now}

-- SELECT … WHERE id = $1
unfoldable pub find_row : String → List Event → Option Event
find_row id [] = none
find_row id (e ∷ rows) = if str_eq e.id id then some e else find_row id rows

abbrev pub is_some {ℓ} : {A : Type ℓ} → Option A → Bool
is_some none = false
is_some (some a) = true

-- UPDATE … WHERE id = $n, with the number of rows affected.
unfoldable pub update_rows : String → (Event → Event) → List Event → List Event
update_rows id f [] = []
update_rows id f (e ∷ rows) = (if str_eq e.id id then f e else e) ∷ update_rows id f rows

unfoldable pub rows_affected : String → List Event → ℕ
rows_affected id [] = 0
rows_affected id (e ∷ rows) = (if str_eq e.id id then 1 else 0) + rows_affected id rows

abbrev pub with_status : EventStatus → Option ℤ → Event → Event
with_status s at e = record e { status = s; processed_at = at }

abbrev pub with_retry : Event → Event
with_retry e = record e { retry_count = e.retry_count + 1 }

unfoldable pub insert_answer : Event → Option Err → M (Option Err)
insert_answer e (some x) w = (some (wrapped "insert event" x), w)
insert_answer e none w =
    if is_some (find_row e.id w.events)
    then (some (wrapped "insert event" (external "duplicate key value")), w)
    else (none, record w { events = w.events ++ e ∷ [] })

unfoldable pub update_answer : String → String → (Event → Event) → Option Err → M (Option Err)
update_answer what id f (some x) w = (some (wrapped what x), w)
update_answer what id f none w =
    if rows_affected id w.events == 0
    then (some not_found, w)
    else (none, record w { events = update_rows id f w.events })

unfoldable pub find_answer : String → Option Err → M (Result Event)
find_answer id (some x) w = (err (wrapped "find event by id" x), w)
find_answer id none w = (elim (find_row id w.events) [ none ↦ err not_found | some e ↦ ok e ], w)

module _ (m : Machine) where
  -- `Insert`; the primary key refuses a second row with the same id.
  unfoldable pub insert : Event → M (Option Err)
  insert e = do fault ← call m; insert_answer e fault

  -- `FindByID`
  unfoldable pub find_by_id : String → M (Result Event)
  find_by_id id = do fault ← call m; find_answer id fault

  -- `processedAt`: set for the status `processed` alone.
  unfoldable pub processed_time : EventStatus → M (Option ℤ)
  processed_time s = if is_processed s then (do t ← now m; pure (some t)) else pure none

  -- `UpdateStatus`
  unfoldable pub update_status : String → EventStatus → M (Option Err)
  update_status id s = do
    at ← processed_time s
    fault ← call m
    update_answer "update event status" id (with_status s at) fault

  -- `IncrementRetry`
  unfoldable pub increment_retry : String → M (Option Err)
  increment_retry id = do fault ← call m; update_answer "increment retry" id with_retry fault

-- SELECT … WHERE status = $1 ORDER BY created_at ASC LIMIT $2; rows of one instant keep the order
-- in which they were inserted.
unfoldable pub same_status : EventStatus → EventStatus → Bool
same_status pending pending = true
same_status processing processing = true
same_status processed processed = true
same_status failed failed = true
same_status _ _ = false

unfoldable pub insert_by_time : Event → List Event → List Event
insert_by_time e [] = e ∷ []
insert_by_time e (r ∷ rows) =
    if leb_ℤ e.created_at r.created_at then e ∷ r ∷ rows else r ∷ insert_by_time e rows

unfoldable pub select_by_status : EventStatus → List Event → List Event
select_by_status s [] = []
select_by_status s (e ∷ rows) =
    let rest = select_by_status s rows in
    if same_status e.status s then insert_by_time e rest else rest

unfoldable pub take : ℕ → List Event → List Event
take zero rows = []
take (suc n) [] = []
take (suc n) (e ∷ rows) = e ∷ take n rows

-- The loop over `rows.Next()`, in which each `Scan` may fail.
unfoldable pub scan_rows : Machine → List Event → List Event → M (Result (List Event))
scan_rows m acc [] w =
    let (fault, w') = call m w in (elim fault [ none ↦ ok acc | some x ↦ err x ], w')
scan_rows m acc (e ∷ rows) w =
    let (fault, w') = call m w in
    let rest = scan_rows m (acc ++ e ∷ []) rows w' in
    elim fault [ none ↦ rest | some x ↦ (err (wrapped "scan event row" x), w') ]

unfoldable pub list_answer : Machine → EventStatus → ℤ → Option Err → M (Result (List Event))
list_answer m s limit (some x) w = (err (wrapped "list events by status" x), w)
list_answer m s (negsuc n) none w =
    (err (wrapped "list events by status" (external "LIMIT must not be negative")), w)
list_answer m s (pos n) none w = scan_rows m [] (take n (select_by_status s w.events)) w

-- `ListByStatus`
unfoldable pub list_by_status : Machine → EventStatus → ℤ → M (Result (List Event))
list_by_status m s limit = do fault ← call m; list_answer m s limit fault
