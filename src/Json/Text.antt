-- ===== src/Json/Text.antt =====
-- How encoding/json writes a string between quotes, and how it reads one back.
use Prim.Native.Char.{Char, code, char}
use Prim.Native.Nat.{Ordering, compare}
use event_observability_plat.Common.{
  ℕ, zero, suc, ◌+◌, ◌-◌, ◌*◌, ◌/◌, ◌%◌, ◌≡◌, refl, Bool, ◌||◌, ◌&&◌, String, Option, none, some,
  if◌then◌else◌, ◌==◌, ltb, leb,
}
use event_observability_plat.Json.{before}

-- U+FFFD, which stands for what is no character.
abbrev pub replacement : Char
replacement = char 65533 tt

high_char :
    (n : ℕ) (o : Ordering)
    → compare n 55296 ≡ Ordering.gt
    → compare 57343 n ≡ Ordering.lt
    → compare n 1114112 ≡ o
    → Char
high_char n Ordering.lt a b e = char n (rw (a, b, e) tt)
high_char n Ordering.eq a b e = replacement
high_char n Ordering.gt a b e = replacement

above_char : (n : ℕ) (o : Ordering) → compare n 55296 ≡ Ordering.gt → compare 57343 n ≡ o → Char
unfolding high_char
above_char n Ordering.lt a e = high_char n (compare n 1114112) a e refl
above_char n Ordering.eq a e = replacement
above_char n Ordering.gt a e = replacement

low_char : (n : ℕ) (o : Ordering) → compare n 55296 ≡ o → Char
unfolding above_char
low_char n Ordering.lt e = char n (rw e tt)
low_char n Ordering.eq e = replacement
low_char n Ordering.gt e = above_char n (compare 57343 n) e refl

-- `string(rune(n))`: the character with this number, if there is one.
unfoldable pub of_code : ℕ → Char
unfolding low_char
of_code n = low_char n (compare n 55296) refl

-- A digit of `hex`, "0123456789abcdef".
unfoldable pub hex_digit : ℕ → Char
hex_digit n = of_code (if ltb n 10 then 48 + n else 87 + n)

-- The value of a hexadecimal digit, if it is one.
unfoldable pub hex_value : Char → Option ℕ
hex_value c =
    let n = code c in
    if leb 48 n && leb n 57
    then some (n - 48)
    else if leb 97 n && leb n 102
    then some (n - 87)
    else if leb 65 n && leb n 70
    then some (n - 55)
    else none

-- How `appendString` writes a character: as it is, behind a backslash, or by its number.
pub data Form : Type 0 where
  plain : Form
  short : Char → Form
  numbered : Form

unfoldable pub form : Char → Form
form c =
    let n = code c in
    if n == 34 || n == 92
    then short c
    else if n == 8
    then short "b"
    else if n == 12
    then short "f"
    else if n == 10
    then short "n"
    else if n == 13
    then short "r"
    else if n == 9
    then short "t"
    else if ltb n 32 || (n == 60 || (n == 62 || (n == 38 || (n == 8232 || n == 8233))))
    then numbered
    else plain

infixr 65 ◌∷◌
abbrev pub ◌∷◌ : Char → String → String
c ∷ s = String.◌∷◌ c s

unfoldable pub escape_as : Form → Char → String → String
unfolding hex_digit
escape_as plain c rest = c ∷ rest
escape_as (short d) c rest = "\\" ∷ d ∷ rest
escape_as numbered c rest =
    let n = code c in
    "\\"
    ∷ "u"
    ∷ hex_digit (n / 4096)
    ∷ hex_digit (n / 256 % 16)
    ∷ hex_digit (n / 16 % 16)
    ∷ hex_digit (n % 16)
    ∷ rest

-- s as it stands between quotes, in front of rest.
unfoldable pub escape : String → String → String
unfolding form escape_as
escape String.[] rest = rest
escape (String.◌∷◌ c s) rest = escape_as (form c) c (escape s rest)

-- What stands behind a backslash, apart from `u`.
unfoldable pub short_char : Char → Char
short_char c =
    let n = code c in
    if n == 98
    then of_code 8
    else if n == 102
    then of_code 12
    else if n == 110
    then of_code 10
    else if n == 114
    then of_code 13
    else if n == 116
    then of_code 9
    else c

-- Where `unquote` stands: the number is the first half of a surrogate pair whose second half may follow.
pub data Reading : Type 0 where
  outside : Reading
  slash : Option ℕ → Reading
  hex : ℕ → ℕ → Option ℕ → Reading
  half : ℕ → Reading

abbrev is_high : ℕ → Bool
is_high n = leb 55296 n && ltb n 56320

abbrev is_low : ℕ → Bool
is_low n = leb 56320 n && ltb n 57344

-- Half a pair that stands alone is no character.
abbrev flush : Option ℕ → String
flush none = ""
flush (some h) = replacement ∷ ""

-- A number that is read to its end.
unfoldable pub numbered_char : ℕ → Option ℕ → String × Reading
numbered_char v none = if is_high v then ("", half v) else (of_code v ∷ "", outside)
numbered_char v (some h) =
    if is_low v
    then (of_code (65536 + (h - 55296) * 1024 + (v - 56320)) ∷ "", outside)
    else if is_high v
    then (replacement ∷ "", half v)
    else (replacement ∷ of_code v ∷ "", outside)

unfoldable pub unquote_hex : ℕ → ℕ → Option ℕ → Option ℕ → String × Reading
unfolding numbered_char
unquote_hex due v h none = ("", outside)
unquote_hex zero v h (some d) = numbered_char (v * 16 + d) h
unquote_hex (suc due) v h (some d) = ("", hex due (v * 16 + d) h)

-- What a character adds to the text.
unfoldable pub unquote_next : Reading → Char → String × Reading
unfolding short_char hex_value unquote_hex
unquote_next outside c = if code c == 92 then ("", slash none) else (c ∷ "", outside)
unquote_next (slash h) c =
    if code c == 117 then ("", hex 3 0 h) else (before (flush h) (short_char c ∷ ""), outside)
unquote_next (hex due v h) c = unquote_hex due v h (hex_value c)
unquote_next (half h) c =
    if code c == 92 then ("", slash (some h)) else (replacement ∷ c ∷ "", outside)

unfoldable pub unquote_from : Reading → String → String
unfolding unquote_next
unquote_from outside String.[] = ""
unquote_from (slash h) String.[] = ""
unquote_from (hex due v h) String.[] = ""
unquote_from (half h) String.[] = flush (some h)
unquote_from r (String.◌∷◌ c s) = let (out, r') = unquote_next r c in before out (unquote_from r' s)

-- `unquote`, of what stands between the quotes of a string that the scanner has let pass.
unfoldable pub unquote : String → String
unfolding unquote_from
unquote s = unquote_from outside s

-- A string between quotes, in front of rest.
unfoldable pub quoted : String → String → String
unfolding escape
quoted s rest = "\"" ∷ escape s ("\"" ∷ rest)
