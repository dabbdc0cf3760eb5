-- ===== src/Storage/Events/Rows.antt =====
-- What the statements of the event repository do to the rows, whatever fails.
use event_observability_plat.Common.{
  ◌<◌, ◌≡◌, refl, arith, String, str_eq, str_eq_iff, false, none, some, List, [], ◌∷◌, ◌++◌,
  if◌then◌else◌,
}
use event_observability_plat.Domain.{Event}
use event_observability_plat.Storage.Events.{find_row, update_rows, rows_affected}

-- The update leaves the id of a row alone.
abbrev pub KeepsId : (Event → Event) → Type 0
KeepsId f = (e : Event) → (f e).id ≡ e.id

module _ (id : String) (f : Event → Event) (keeps : KeepsId f) where
  pub find_row-update_self :
      (rows : List Event) (e : Event)
      → find_row id rows ≡ some e
      → find_row id (update_rows id f rows) ≡ some (f e)
  unfolding find_row update_rows
  find_row-update_self [] e h = ground arith
  find_row-update_self (r ∷ rows) e h = ground (arith, keeps r, find_row-update_self rows e)

  pub find_row-update_ne :
      (j : String) (rows : List Event)
      → str_eq id j ≡ false
      → find_row j (update_rows id f rows) ≡ find_row j rows
  unfolding find_row update_rows
  find_row-update_ne j [] ne = refl
  find_row-update_ne j (r ∷ rows) ne = ground (
    arith,
    keeps r,
    str_eq_iff r.id id,
    str_eq_iff r.id j,
    str_eq_iff id j,
    find_row-update_ne j rows ne,
  )

pub rows_affected-find :
    (id : String) (rows : List Event) (e : Event)
    → find_row id rows ≡ some e
    → 0 < rows_affected id rows
unfolding find_row rows_affected
rows_affected-find id [] e h = ground arith
rows_affected-find id (r ∷ rows) e h = ground (arith, rows_affected-find id rows e)

pub rows_affected-none :
    (id : String) (rows : List Event) → find_row id rows ≡ none → rows_affected id rows ≡ 0
unfolding find_row rows_affected
rows_affected-none id [] h = refl
rows_affected-none id (r ∷ rows) h = ground (arith, rows_affected-none id rows)

pub find_row-append_new :
    (e : Event) (j : String) (rows : List Event)
    → find_row e.id rows ≡ none
    → find_row j (rows ++ e ∷ []) ≡ (if str_eq e.id j then some e else find_row j rows)
unfolding find_row
find_row-append_new e j [] h = refl
find_row-append_new e j (r ∷ rows) h = ground (
  arith,
  str_eq_iff r.id e.id,
  str_eq_iff r.id j,
  str_eq_iff e.id j,
  find_row-append_new e j rows,
)

-- The row that is found has the id that was asked for.
pub find_row-id :
    (id : String) (rows : List Event) (e : Event) → find_row id rows ≡ some e → e.id ≡ id
unfolding find_row
find_row-id id [] e h = absurd (cc h)
find_row-id id (r ∷ rows) e h = ground (arith, str_eq_iff r.id id, find_row-id id rows e)
