-- ===== src/Storage/Idempotency.antt =====
-- internal/infra/storage/postgres/idempotency_store.go over the table idempotency_keys.
-- `key` is the primary key, and event_id refers to a row of webhook_events.
pub mod Invariant
use event_observability_plat.Common.{
  String, Bool, true, false, str_eq, Option, none, some, List, [], ◌∷◌, ◌++◌, if◌then◌else◌, ℤ,
  ltb_ℤ,
}
use event_observability_plat.Errors.{Err, external, wrapped, Result, ok, err}
use event_observability_plat.Domain.{Event, Entry}
use event_observability_plat.Runtime.{World, Machine, M, ◌>>=◌, ◌>>◌, pure, call, now}
use event_observability_plat.Storage.Events.{find_row, is_some}

abbrev pub Keys : Type 0
Keys = List (String × Entry)

unfoldable pub find_key : String → Keys → Option Entry
find_key key [] = none
find_key key ((k, e) ∷ rest) = if str_eq k key then some e else find_key key rest

-- `expires_at > NOW()`
unfoldable pub unexpired : ℤ → Option Entry → Option Entry
unexpired t none = none
unexpired t (some e) = if ltb_ℤ t e.expires_at then some e else none

unfoldable pub get_answer : String → ℤ → Option Err → M (Result (Option Entry))
get_answer key t (some x) w = (err (wrapped "idempotency get" x), w)
get_answer key t none w = (ok (unexpired t (find_key key w.keys)), w)

-- ON CONFLICT (key) DO NOTHING: the conflict is found before the reference is checked.
unfoldable pub insert_key : String → Entry → List Event → Keys → Option Keys
insert_key key e events keys =
    if is_some (find_key key keys)
    then some keys
    else if is_some (find_row e.event_id events)
    then some (keys ++ (key, e) ∷ [])
    else none

unfoldable pub set_answer : String → Entry → Option Err → M (Option Err)
set_answer key e (some x) w = (some (wrapped "idempotency set" x), w)
set_answer key e none w = elim (insert_key key e w.events w.keys) [
  | none ↦ (some (wrapped "idempotency set" (external "foreign key violation")), w)
  | some keys ↦ (none, record w { keys = keys })
]

module _ (m : Machine) where
  -- `Get`; `now` is the clock of the database.
  unfoldable pub get : String → M (Result (Option Entry))
  get key = do t ← now m; fault ← call m; get_answer key t fault

  -- `Set`
  unfoldable pub set : String → Entry → M (Option Err)
  set key e = do fault ← call m; set_answer key e fault
