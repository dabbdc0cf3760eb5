-- ===== src/Json/Values.antt =====
-- The values that tokens make: where the scanner of encoding/json lets one end.
use event_observability_plat.Common.{
  ℕ, suc, String, Option, none, some, List, [], ◌∷◌, if◌then◌else◌, leb,
}
use event_observability_plat.Json.Tokens.{
  Kind, open_object, close_object, open_array, close_array, colon, comma, text, number, null,
  boolean, Token, tokens,
}

-- What surrounds a value.
pub data Frame : Type 0 where
  in_object in_array : Frame

pub data Expected : Type 0 where
  a_value value_or_close key_or_close a_key a_colon comma_or_close : Expected

-- A token is refused, is the last of the value, or is followed by others of it.
pub data Outcome : Type 0 where
  refused ended : Outcome
  goes_on : List Frame → Expected → Outcome

abbrev depth : List Frame → ℕ
depth [] = 0
depth (f ∷ frames) = suc (depth frames)

-- maxNestingDepth
abbrev pub max_depth : ℕ
max_depth = 10000

unfoldable pub enter : Frame → Expected → List Frame → Outcome
enter f ex frames = if leb (depth (f ∷ frames)) max_depth then goes_on (f ∷ frames) ex else refused

-- stateEndValue
unfoldable pub after_value : List Frame → Outcome
after_value [] = ended
after_value (f ∷ frames) = goes_on (f ∷ frames) comma_or_close

unfoldable pub begin_value : List Frame → Kind → Outcome
unfolding enter after_value
begin_value frames open_object = enter in_object key_or_close frames
begin_value frames open_array = enter in_array value_or_close frames
begin_value frames text = after_value frames
begin_value frames number = after_value frames
begin_value frames null = after_value frames
begin_value frames boolean = after_value frames
begin_value frames _ = refused

unfoldable pub next_token : List Frame → Expected → Kind → Outcome
unfolding begin_value
next_token frames a_value k = begin_value frames k
next_token (in_array ∷ frames) value_or_close close_array = after_value frames
next_token frames value_or_close k = begin_value frames k
next_token (in_object ∷ frames) key_or_close close_object = after_value frames
next_token frames key_or_close text = goes_on frames a_colon
next_token frames a_key text = goes_on frames a_colon
next_token frames a_colon colon = goes_on frames a_value
next_token (in_object ∷ frames) comma_or_close comma = goes_on (in_object ∷ frames) a_key
next_token (in_array ∷ frames) comma_or_close comma = goes_on (in_array ∷ frames) a_value
next_token (in_object ∷ frames) comma_or_close close_object = after_value frames
next_token (in_array ∷ frames) comma_or_close close_array = after_value frames
next_token frames _ _ = refused

unfoldable pub in_front :
    Token → Option (List Token × List Token) → Option (List Token × List Token)
in_front t none = none
in_front t (some (ts, rest)) = some (t ∷ ts, rest)

-- The tokens of the first value, and those behind it.
unfoldable pub first_value : List Frame → Expected → List Token → Option (List Token × List Token)
unfolding next_token in_front
first_value frames ex [] = none
first_value frames ex (t ∷ ts) = elim (next_token frames ex t.kind) [
  | refused ↦ none
  | ended ↦ some (t ∷ [], ts)
  | goes_on frames' ex' ↦ in_front t (first_value frames' ex' ts)
]

abbrev pub leading : Option (List Token × List Token) → Option (List Token)
leading none = none
leading (some (value, rest)) = some value

abbrev pub alone : Option (List Token × List Token) → Option (List Token)
alone none = none
alone (some (value, [])) = some value
alone (some (value, t ∷ rest)) = none

-- The tokens of the first value of a text, as `Decoder.Decode` reads it: what follows is not looked at.
unfoldable pub leading_value : String → Option (List Token)
unfolding first_value
leading_value s = leading (first_value [] a_value (tokens s))

-- The tokens of a text that is one value, as `Unmarshal` reads it.
unfoldable pub whole_value : String → Option (List Token)
unfolding first_value
whole_value s = alone (first_value [] a_value (tokens s))
