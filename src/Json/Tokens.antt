-- ===== src/Json/Tokens.antt =====
-- The scanner of encoding/json on the level of tokens. It takes one character at a time, and where one is out
-- of place it ends with a token that no value allows.
use Prim.Native.Char.{Char, code}
use event_observability_plat.Common.{
  ℕ, zero, suc, Bool, true, false, ◌||◌, ◌&&◌, String, Option, none, some, List, [], ◌++◌,
  if◌then◌else◌, ◌==◌, ltb, leb,
}
use event_observability_plat.Json.{before}
use event_observability_plat.Json.Text.{hex_value}

pub data Kind : Type 0 where
  open_object close_object open_array close_array colon comma text number null boolean bad : Kind

-- A token, with the white space before it, and what it consists of: for a text, what stands between its quotes.
pub record Token : Type 0 where
  pub kind : Kind
  pub blank : String
  pub content : String

abbrev pub token : Kind → String → String → Token
token k b s = record { kind = k; blank = b; content = s }

-- Where a number stands: behind its sign, its leading zero, a digit of its whole part, its point, a
-- digit behind that, its `e`, the sign of that, and a digit of its exponent.
pub data Number : Type 0 where
  minus leading_zero whole point fraction e e_sign exponent : Number

-- Where the scanner stands, with the white space before the token and what it has read of it.
pub data Scanner : Type 0 where
  between : String → Scanner
  in_text : String → String → Scanner
  in_escape : String → String → Scanner
  in_hex : ℕ → String → String → Scanner
  in_number : Number → String → String → Scanner
  in_word : Kind → String → String → String → Scanner
  stopped : Scanner

abbrev pub Scanned : Type 0
Scanned = List Token × Scanner

abbrev pub only : Token → List Token
only t = List.◌∷◌ t []

abbrev pub refuse : Scanned
refuse = (only (token bad "" ""), stopped)

infixr 65 ◌∷◌
abbrev pub ◌∷◌ : Char → String → String
c ∷ s = String.◌∷◌ c s

-- s with c behind it
abbrev pub with_char : String → Char → String
with_char s c = before s (c ∷ "")

-- isSpace
abbrev pub is_blank : Char → Bool
is_blank c = code c == 32 || (code c == 9 || (code c == 13 || code c == 10))

abbrev pub is_digit : Char → Bool
is_digit c = leb 48 (code c) && leb (code c) 57

abbrev is_e : Char → Bool
is_e c = code c == 101 || code c == 69

-- Behind a digit of the whole part.
abbrev after_whole : Char → Option Number
after_whole c = if code c == 46 then some point else if is_e c then some e else none

-- The character goes on with the number.
unfoldable pub number_next : Number → Char → Option Number
number_next minus c =
    if code c == 48 then some leading_zero else if is_digit c then some whole else none
number_next leading_zero c = after_whole c
number_next whole c = if is_digit c then some whole else after_whole c
number_next point c = if is_digit c then some fraction else none
number_next fraction c = if is_digit c then some fraction else if is_e c then some e else none
number_next e c =
    if is_digit c then some exponent else if code c == 43 || code c == 45 then some e_sign else none
number_next e_sign c = if is_digit c then some exponent else none
number_next exponent c = if is_digit c then some exponent else none

-- A number can end here.
unfoldable pub number_ends : Number → Bool
number_ends minus = false
number_ends leading_zero = true
number_ends whole = true
number_ends point = false
number_ends fraction = true
number_ends e = false
number_ends e_sign = false
number_ends exponent = true

abbrev one : Kind → String → Char → Scanned
one k b c = (only (token k b (c ∷ "")), between "")

-- The first character of a token.
unfoldable pub start : String → Char → Scanned
start b c =
    let n = code c in
    if is_blank c
    then ([], between (with_char b c))
    else if n == 34
    then ([], in_text b "")
    else if n == 123
    then one open_object b c
    else if n == 125
    then one close_object b c
    else if n == 91
    then one open_array b c
    else if n == 93
    then one close_array b c
    else if n == 58
    then one colon b c
    else if n == 44
    then one comma b c
    else if n == 45
    then ([], in_number minus b (c ∷ ""))
    else if n == 48
    then ([], in_number leading_zero b (c ∷ ""))
    else if is_digit c
    then ([], in_number whole b (c ∷ ""))
    else if n == 110
    then ([], in_word null "ull" b (c ∷ ""))
    else if n == 116
    then ([], in_word boolean "rue" b (c ∷ ""))
    else if n == 102
    then ([], in_word boolean "alse" b (c ∷ ""))
    else refuse

-- What may stand behind a backslash, apart from `u`: one of "\/bfnrt.
unfoldable pub is_escape : Char → Bool
is_escape c =
    let n = code c in
    n == 34
    || (n == 92 || (n == 47 || (n == 98 || (n == 102 || (n == 110 || (n == 114 || n == 116))))))

unfoldable pub word_next : Kind → String → String → String → Char → Scanned
word_next k String.[] b s c = refuse
word_next k (String.◌∷◌ d String.[]) b s c =
    if code c == code d then (only (token k b (with_char s c)), between "") else refuse
word_next k (String.◌∷◌ d (String.◌∷◌ d' due)) b s c =
    if code c == code d then ([], in_word k (d' ∷ due) b (with_char s c)) else refuse

-- Behind a digit of a number in a text; the first argument is how many are still due.
unfoldable pub hex_next : ℕ → String → String → Option ℕ → Scanned
hex_next due b s none = refuse
hex_next zero b s (some v) = ([], in_text b s)
hex_next (suc due) b s (some v) = ([], in_hex due b s)

-- A number goes on, or ends in front of the character c.
unfoldable pub number_goes_on : Number → String → String → Char → Option Number → Scanned
unfolding start number_ends
number_goes_on k b s c (some k') = ([], in_number k' b (with_char s c))
number_goes_on k b s c none =
    if number_ends k then (only (token number b s) ++ (start "" c).0, (start "" c).1) else refuse

unfoldable pub scan_next : Scanner → Char → Scanned
unfolding start number_next is_escape word_next hex_value hex_next number_goes_on
scan_next (between b) c = start b c
scan_next (in_text b s) c =
    if code c == 34
    then (only (token text b s), between "")
    else if code c == 92
    then ([], in_escape b (with_char s c))
    else if ltb (code c) 32
    then refuse
    else ([], in_text b (with_char s c))
scan_next (in_escape b s) c =
    if code c == 117
    then ([], in_hex 3 b (with_char s c))
    else if is_escape c
    then ([], in_text b (with_char s c))
    else refuse
scan_next (in_hex due b s) c = hex_next due b (with_char s c) (hex_value c)
scan_next (in_number k b s) c = number_goes_on k b s c (number_next k c)
scan_next (in_word k due b s) c = word_next k due b s c
scan_next stopped c = ([], stopped)

-- Where the text ends.
unfoldable pub scan_end : Scanner → List Token
unfolding number_ends
scan_end (between b) = []
scan_end (in_number k b s) = if number_ends k then only (token number b s) else refuse.0
scan_end stopped = []
scan_end _ = refuse.0

unfoldable pub scan : Scanner → String → List Token
unfolding scan_next scan_end
scan st String.[] = scan_end st
scan st (String.◌∷◌ c s) = let (out, st') = scan_next st c in out ++ scan st' s

-- The tokens of a text.
unfoldable pub tokens : String → List Token
unfolding scan
tokens s = scan (between "") s
