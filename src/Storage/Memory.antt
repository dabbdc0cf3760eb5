-- ===== src/Storage/Memory.antt =====
-- internal/infra/storage/memory/memory_store.go: the same port over a map. Both methods hold the
-- lock, so that a concurrent history is a sequence of calls.
use event_observability_plat.Common.{
  String, str_eq, str_eq_iff, Option, none, some, List, [], ◌∷◌, ◌++◌, ◌≡◌, ◌≢◌, refl, arith,
  if◌then◌else◌, ℤ, ◌<ℤ◌, ◌≤ℤ◌, eq_of_parts,
}
use event_observability_plat.Domain.{Entry, is_expired}
use event_observability_plat.Storage.Events.{is_some}
use event_observability_plat.Storage.Idempotency.{Keys, find_key, unexpired}

abbrev pub new_memory_store : Keys
new_memory_store = []

live_entry : ℤ → Option Entry → Option Entry
unfolding is_expired
live_entry t none = none
live_entry t (some e) = if is_expired e t then none else some e

-- `Get` at the instant t.
unfoldable pub get : Keys → ℤ → String → Option Entry
unfolding live_entry find_key
get entries t key = live_entry t (find_key key entries)

-- `Set`
unfoldable pub set : Keys → String → Entry → Keys
unfolding find_key
set entries key e = if is_some (find_key key entries) then entries else entries ++ (key, e) ∷ []

pub find_key-append :
    (entries : Keys) (key j : String) (e : Entry)
    → find_key key entries ≡ none
    → find_key j (entries ++ (key, e) ∷ []) ≡ (if str_eq key j then some e else find_key j entries)
unfolding find_key
find_key-append [] key j e h = refl
find_key-append ((k, x) ∷ rest) key j e h =
    ground (arith, str_eq_iff k key, str_eq_iff k j, str_eq_iff key j, find_key-append rest key j e)

-- What the port promises, as a function of what `Get` gave before: `Set` of a key that has an entry,
-- expired or not, changes nothing; `Set` of a new key makes `Get` give the entry until it expires,
-- and changes no other key.
pub get-set :
    (entries : Keys) (key j : String) (e : Entry) (t : ℤ)
    → get (set entries key e) t j ≡ (
        if is_some (find_key key entries)
        then get entries t j
        else if str_eq key j
        then (if is_expired e t then none else some e)
        else get entries t j)
unfolding get set
get-set entries key j e t = ground (arith, find_key-append entries key j e)

agrees :
    (t : ℤ) (o : Option Entry)
    → ((e : Entry) → o ≡ some e → t ≢ e.expires_at)
    → live_entry t o ≡ unexpired t o
unfolding live_entry unexpired
agrees t none h = refl
agrees t (some e) h = ground (arith, h e refl, eq_of_parts t e.expires_at)

-- The map and the PostgreSQL table agree on `Get` at every instant but the one at which an entry
-- expires: there the map still gives the entry, and the table does not.
pub get_agrees :
    (entries : Keys) (t : ℤ) (key : String)
    → ((e : Entry) → find_key key entries ≡ some e → t ≢ e.expires_at)
    → get entries t key ≡ unexpired t (find_key key entries)
unfolding get
get_agrees entries t key h = agrees t (find_key key entries) h

-- One `Set` of a key after another.
unfoldable pub set_each : Keys → String → List Entry → Keys
set_each entries key [] = entries
set_each entries key (e ∷ rest) = set_each (set entries key e) key rest

set_each-found :
    (es : List Entry) (entries : Keys) (key : String) (old : Entry)
    → find_key key entries ≡ some old
    → set_each entries key es ≡ entries
unfolding set_each set
set_each-found [] entries key old h = refl
set_each-found (e ∷ rest) entries key old h =
    ground (arith, h, set_each-found rest entries key old h)

-- An entry that has expired is in the way for good: after any number of further `Set` calls for its key, with
-- whatever entries, `Get` gives nothing for it at that instant or later.
pub expired_for_good :
    (entries : Keys) (key : String) (old : Entry) (es : List Entry) (t later : ℤ)
    → find_key key entries ≡ some old
    → old.expires_at <ℤ t
    → t ≤ℤ later
    → get (set_each entries key es) later key ≡ none
unfolding get
expired_for_good entries key old es t later h x l =
    ground (arith, h, x, l, set_each-found es entries key old h)
