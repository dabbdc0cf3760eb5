-- ===== src/Json/Fields.antt =====
-- The members of an object, and what the decoder of encoding/json makes of one for a field of type string, int or
-- json.RawMessage.
use event_observability_plat.Common.{
  ℕ, zero, suc, ◌-◌, ◌&&◌, Bool, true, false, String, Option, none, some, List, [], ◌∷◌, ◌++◌,
  if◌then◌else◌, ◌==◌, leb, ℤ, str_eq,
}
use event_observability_plat.Config.{atoi}
use event_observability_plat.Json.{before}
use event_observability_plat.Json.Text.{unquote, of_code}
use event_observability_plat.Json.Tokens.{
  Kind, open_object, close_object, open_array, close_array, text, number, null, Token,
}
use Prim.Native.Char.{Char, code}

-- A member of an object: its key and the tokens of its value.
abbrev pub Member : Type 0
Member = String × List Token

-- Where the reading of members stands. In a value of an array or object, the number is how many of
-- them are open, less one.
pub data Place : Type 0 where
  at_key : Place
  at_colon : String → Place
  at_value : String → Place
  within : String → ℕ → List Token → Place

unfoldable pub read_value : String → Token → List Member × Place
read_value name t = elim t.kind [
  | open_object ↦ ([], within name 0 (t ∷ []))
  | open_array ↦ ([], within name 0 (t ∷ []))
  | _ ↦ ((name, t ∷ []) ∷ [], at_key)
]

unfoldable pub read_close : String → ℕ → List Token → List Member × Place
read_close name zero ts = ((name, ts) ∷ [], at_key)
read_close name (suc n) ts = ([], within name n ts)

unfoldable pub read_member : Place → Token → List Member × Place
unfolding read_value read_close
read_member at_key t = elim t.kind [ text ↦ ([], at_colon (unquote t.content)) | _ ↦ ([], at_key) ]
read_member (at_colon name) t = ([], at_value name)
read_member (at_value name) t = read_value name t
read_member (within name n ts) t = elim t.kind [
  | open_object ↦ ([], within name (suc n) (ts ++ t ∷ []))
  | open_array ↦ ([], within name (suc n) (ts ++ t ∷ []))
  | close_object ↦ read_close name n (ts ++ t ∷ [])
  | close_array ↦ read_close name n (ts ++ t ∷ [])
  | _ ↦ ([], within name n (ts ++ t ∷ []))
]

-- The members of an object, from the tokens behind its brace.
unfoldable pub members : Place → List Token → List Member
unfolding read_member
members p [] = []
members p (t ∷ ts) = let (out, p') = read_member p t in out ++ members p' ts

-- `foldName` of a character: only the letters k and s have forms outside ASCII.
unfoldable pub fold_char : Char → Char
fold_char c =
    let n = code c in
    if n == 8490
    then "K"
    else if n == 383
    then "S"
    else if leb 97 n && leb n 122
    then of_code (n - 32)
    else c

unfoldable pub fold_name : String → String
unfolding fold_char
fold_name String.[] = ""
fold_name (String.◌∷◌ c s) = String.◌∷◌ (fold_char c) (fold_name s)

-- The key of a member names the field, in any case of its letters.
unfoldable pub names : String → String → Bool
unfolding fold_name
names field key = str_eq (fold_name key) (fold_name field)

-- What the value of a member makes of a field that holds a string.
unfoldable pub string_field : List Token → String → Option String
string_field [] old = none
string_field (t ∷ []) old = elim t.kind [
  | text ↦ some (unquote t.content)
  | null ↦ some old
  | _ ↦ none
]
string_field (t ∷ u ∷ ts) old = none

-- The tokens that decide what a value is decoded as.
unfoldable pub is_kind : Kind → Kind → Bool
is_kind open_object open_object = true
is_kind null null = true
is_kind number number = true
is_kind _ _ = false

unfoldable pub int_field : List Token → ℤ → Option ℤ
unfolding is_kind
int_field [] old = none
int_field (t ∷ []) old =
    if is_kind number t.kind then atoi t.content else if is_kind null t.kind then some old else none
int_field (t ∷ u ∷ ts) old = none

unfoldable pub source : Token → String
source t = elim t.kind [ text ↦ String.◌∷◌ "\"" (before t.content "\"") | _ ↦ t.content ]

-- What the tokens were read from, without the white space in front.
unfoldable pub raw_source : List Token → String
unfolding source
raw_source [] = ""
raw_source (t ∷ []) = source t
raw_source (t ∷ u ∷ ts) = before (source t) (before u.blank (raw_source (u ∷ ts)))

abbrev on_some : {A B : Type 0} → Option A → (A → Option B) → Option B
on_some none f = none
on_some (some a) f = f a

-- A value is decoded into a struct: `set` is what a member makes of the fields, and a failure of one member is
-- an error.
module _ {A : Type 0} (set : Member → A → Option A) where
  unfoldable pub set_all : List Member → A → Option A
  set_all [] a = some a
  set_all (x ∷ xs) a = on_some (set x a) (λ a'. set_all xs a')

  -- From the tokens of a value, if the text has one.
  unfoldable pub decode_struct : List Token → A → Option A
  unfolding set_all members is_kind
  decode_struct [] a = none
  decode_struct (t ∷ ts) a =
      if is_kind open_object t.kind
      then set_all (members at_key ts) a
      else if is_kind null t.kind
      then some a
      else none

  abbrev pub decode_value : Option (List Token) → A → Option A
  decode_value none a = none
  decode_value (some value) a = decode_struct value a
