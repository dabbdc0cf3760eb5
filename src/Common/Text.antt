-- ===== src/Common/Text.antt =====
-- Text as Go's standard library handles it: strconv.Itoa, strings.TrimSpace, strings.Split and
-- strings.Join. A string is the sequence of its characters; invalid UTF-8 is not modelled.
use Prim.Native.Nat.{ℕ, zero, suc, ◌/◌, ◌%◌}
use Prim.Native.Char.{Char, code}
use Prim.Native.String.{String}
use mathlib.Core.Bool.{Bool, true, false, ◌&&◌, ◌||◌}
use mathlib.Core.List.{List, [], ◌∷◌, map}
use mathlib.Core.Path.{◌≡◌, refl}
use event_observability_plat.Common.Tests.{leb, ◌==◌, if◌then◌else◌}

infixr 65 ◌^^◌
abbrev pub ◌^^◌ : String → String → String
s ^^ t = Prim.Native.String.◌++◌ s t

unfoldable pub digit : ℕ → Char
digit n =
    if n == 0
    then "0"
    else if n == 1
    then "1"
    else if n == 2
    then "2"
    else if n == 3
    then "3"
    else if n == 4
    then "4"
    else if n == 5
    then "5"
    else if n == 6
    then "6"
    else if n == 7
    then "7"
    else if n == 8
    then "8"
    else "9"

unfoldable pub itoa_from : ℕ → ℕ → String → String
unfolding digit
itoa_from zero n acc = acc
itoa_from (suc fuel) n acc =
    let more = itoa_from fuel (n / 10) (String.◌∷◌ (digit (n % 10)) acc) in
    if n / 10 == 0 then String.◌∷◌ (digit (n % 10)) acc else more

-- The decimal digits of a number; it has fewer than n + 1 of them.
unfoldable pub itoa : ℕ → String
unfolding itoa_from
itoa n = itoa_from (suc n) n ""

-- unicode.IsSpace
unfoldable pub is_space : Char → Bool
is_space ch =
    let c = code ch in
    (leb 9 c && leb c 13)
    || c == 32
    || c == 133
    || c == 160
    || c == 5760
    || (leb 8192 c && leb c 8202)
    || c == 8232
    || c == 8233
    || c == 8239
    || c == 8287
    || c == 12288

trim_left : String → String
trim_left String.[] = ""
trim_left (String.◌∷◌ c s) = if is_space c then trim_left s else String.◌∷◌ c s

is_empty : String → Bool
is_empty String.[] = true
is_empty (String.◌∷◌ c s) = false

trim_right : String → String
unfolding is_empty
trim_right String.[] = ""
trim_right (String.◌∷◌ c s) =
    let rest = trim_right s in if is_space c && is_empty rest then "" else String.◌∷◌ c rest

unfoldable pub trim_space : String → String
unfolding trim_left trim_right is_space
trim_space s = trim_right (trim_left s)

unfoldable pub push_front : Char → List String → List String
push_front c [] = String.◌∷◌ c "" ∷ []
push_front c (s ∷ rest) = String.◌∷◌ c s ∷ rest

-- `strings.Split` at a separator of one character.
unfoldable pub split : Char → String → List String
unfolding push_front
split sep String.[] = "" ∷ []
split sep (String.◌∷◌ c s) =
    let rest = split sep s in if code c == code sep then "" ∷ rest else push_front c rest

unfoldable pub join : String → List String → String
join sep [] = ""
join sep (s ∷ []) = s
join sep (s ∷ t ∷ rest) = s ^^ sep ^^ join sep (t ∷ rest)

itoa_test : itoa 30458 ≡ "30458"
unfolding itoa
itoa_test = refl

split_test : map trim_space (split "," " a,b ,") ≡ "a" ∷ "b" ∷ "" ∷ []
unfolding split trim_space
split_test = refl

join_test : join ", " (split "," "x,y,z") ≡ "x, y, z"
unfolding split join
join_test = refl
