-- ===== src/Messaging/Carrier.antt =====
-- carrier.go: Kafka headers as a carrier of trace context.
use event_observability_plat.Common.{
  String, Bool, true, false, str_eq, str_eq_iff, List, [], ◌∷◌, ◌++◌, ◌≡◌, refl, arith,
  if◌then◌else◌,
}

-- kafka.Header: the key and the value.
abbrev pub Header : Type 0
Header = String × String

-- `NewHeaderCarrier` copies the headers that it is given.
abbrev pub new_header_carrier : List Header → List Header
new_header_carrier h = h

-- `Get`: the first header with the key, or the empty text.
unfoldable pub get : List Header → String → String
get [] key = ""
get ((k, v) ∷ rest) key = if str_eq k key then v else get rest key

-- `Set`: overwrites the first header with the key, or appends one.
unfoldable pub set : List Header → String → String → List Header
set [] key value = (key, value) ∷ []
set ((k, v) ∷ rest) key value =
    if str_eq k key then (k, value) ∷ rest else (k, v) ∷ set rest key value

-- `Keys`
unfoldable pub keys : List Header → List String
keys [] = []
keys ((k, v) ∷ rest) = k ∷ keys rest

-- What a propagator does with a carrier: it sets each of its fields.
unfoldable pub inject : List Header → List Header → List Header
inject [] carrier = carrier
inject ((k, v) ∷ fields) carrier = inject fields (set carrier k v)

-- After `Set` the carrier gives the new value for that key, and what it gave for any other.
pub get-set_header :
    (h : List Header) (key value j : String)
    → get (set h key value) j ≡ (if str_eq key j then value else get h j)
unfolding get set
get-set_header [] key value j = refl
get-set_header ((k, v) ∷ rest) key value j =
    ground
      (arith, str_eq_iff k key, str_eq_iff k j, str_eq_iff key j, get-set_header rest key value j)

abbrev pub contains : String → List String → Bool
contains key [] = false
contains key (k ∷ ks) = if str_eq k key then true else contains key ks

-- `Set` adds its key behind the others if it is new, and keeps the list of keys if it is not.
pub keys-set :
    (h : List Header) (key value : String)
    → keys (set h key value) ≡ (if contains key (keys h) then keys h else keys h ++ key ∷ [])
unfolding keys set
keys-set [] key value = refl
keys-set ((k, v) ∷ rest) key value = ground (arith, keys-set rest key value)
