-- ===== src/Json.antt =====
-- encoding/json as the program uses it: the text of a string, the tokens of a text, the values that they make, and the
-- members of an object. A text is its characters; a text that is no valid UTF-8 is not modelled.
pub mod Text
pub mod Tokens
pub mod Values
pub mod Fields
pub mod Quoted
pub mod Numerals
pub mod Structs
use event_observability_plat.Common.{◌≡◌, refl, ap, String, suc, ℤ, pos, negsuc, itoa}

-- s in front of t.
unfoldable pub before : String → String → String
before String.[] t = t
before (String.◌∷◌ c s) t = String.◌∷◌ c (before s t)

pub before_assoc : (s t u : String) → before (before s t) u ≡ before s (before t u)
unfolding before
before_assoc String.[] t u = refl
before_assoc (String.◌∷◌ c s) t u = ap (String.◌∷◌ c) (before_assoc s t u)

pub before-nil : (s : String) → before s "" ≡ s
unfolding before
before-nil String.[] = refl
before-nil (String.◌∷◌ c s) = ap (String.◌∷◌ c) (before-nil s)

-- `strconv.AppendInt`
unfoldable pub int_text : ℤ → String
int_text (pos n) = itoa n
int_text (negsuc n) = String.◌∷◌ "-" (itoa (suc n))
