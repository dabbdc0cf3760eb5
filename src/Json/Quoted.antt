-- ===== src/Json/Quoted.antt =====
-- What `escape` writes passes the scanner, and `unquote` reads it back.
use Prim.Native.Char.{Char, code}
use text.Mathlib.TextEquality.{Char-path}
use event_observability_plat.Common.{
  ℕ, ◌+◌, ◌*◌, ◌/◌, ◌%◌, ◌<◌, ◌≡◌, refl, ap, ◌∙◌, inl, inr, ◌⊎◌, arith, true, false, ◌||◌, String,
  none, some, ◌==◌, ltb, leb, Bool-cases,
}
use event_observability_plat.Json.{before, before_assoc, before-nil}
use event_observability_plat.Json.Text.{
  of_code, hex_digit, hex_value, Form, plain, short, numbered, form, escape_as, escape, short_char,
  outside, unquote_next, unquote_from, unquote, numbered_char, unquote_hex,
}
use event_observability_plat.Json.Tokens.{in_text, scan_next, scan, is_escape, hex_next, with_char}

code-of_code : (n : ℕ) → n < 55296 → code (of_code n) ≡ n
unfolding of_code
code-of_code n h = ground arith

-- The three ways to write a character.
IsPlain : Char → Type 0
IsPlain c =
    (form c ≡ plain)
    × ((code c == 34) ≡ false)
    × ((code c == 92) ≡ false)
    × (ltb (code c) 32 ≡ false)

IsShort : Char → Type 0
IsShort c =
    (d : Char) × (form c ≡ short d)
    × (is_escape d ≡ true)
    × ((code d == 117) ≡ false)
    × (short_char d ≡ c)

IsNumbered : Char → Type 0
IsNumbered c = (form c ≡ numbered) × (code c < 55296)

same_char : (n : ℕ) (c : Char) → n < 55296 → (code c == n) ≡ true → of_code n ≡ c
same_char n c h e = Char-path (of_code n) c (ground (arith, code-of_code n h))

eq_of_test : (m n : ℕ) → (m == n) ≡ true → m ≡ n
eq_of_test m n e = ground arith

-- A control character that has a letter.
by_letter :
    (n : ℕ) (d : Char) (c : Char)
    → n < 55296
    → (code c == n) ≡ true
    → form c ≡ short d
    → is_escape d ≡ true
    → (code d == 117) ≡ false
    → short_char d ≡ of_code n
    → IsPlain c ⊎ (IsShort c ⊎ IsNumbered c)
unfolding IsShort
by_letter n d c h e f g k s = inr (inl (d, f, g, k, s ∙ same_char n c h e))

form_cases : (c : Char) → IsPlain c ⊎ (IsShort c ⊎ IsNumbered c)
unfolding IsPlain IsShort IsNumbered form is_escape short_char
form_cases c = elim (Bool-cases (code c == 34 || code c == 92)) [
  | inl e ↦ inr (inl (c, rw e refl, ground arith, ground arith, ground arith))
  | inr e ↦ elim (Bool-cases (code c == 8)) [
    | inl e8 ↦ by_letter 8 "b" c (omega arith) e8 (rw (eq_of_test _ _ e8) refl) refl refl refl
    | inr e8 ↦ elim (Bool-cases (code c == 12)) [
      | inl e12 ↦ by_letter 12 "f" c (omega arith) e12 (rw (eq_of_test _ _ e12) refl) refl refl refl
      | inr e12 ↦ elim (Bool-cases (code c == 10)) [
        | inl e10 ↦
            by_letter 10 "n" c (omega arith) e10 (rw (eq_of_test _ _ e10) refl) refl refl refl
        | inr e10 ↦ elim (Bool-cases (code c == 13)) [
          | inl e13 ↦
              by_letter 13 "r" c (omega arith) e13 (rw (eq_of_test _ _ e13) refl) refl refl refl
          | inr e13 ↦ elim (Bool-cases (code c == 9)) [
            | inl e9 ↦
                by_letter 9 "t" c (omega arith) e9 (rw (eq_of_test _ _ e9) refl) refl refl refl
            | inr e9 ↦
                elim (Bool-cases (
                  ltb (code c) 32
                  || (code c == 60
                      || (code c == 62 || (code c == 38 || (code c == 8232 || code c == 8233)))))) [
                        | inl b ↦ inr (inr (rw (e, e8, e12, e10, e13, e9, b) refl, ground arith))
                        | inr b ↦ inl (
                          rw (e, e8, e12, e10, e13, e9, b) refl,
                          ground arith,
                          ground arith,
                          ground arith,
                        )
                      ]
          ]
        ]
      ]
    ]
  ]
]

hex_value-hex_digit : (n : ℕ) → n < 16 → hex_value (hex_digit n) ≡ some n
unfolding hex_value hex_digit
hex_value-hex_digit n h = elim (Bool-cases (ltb n 10)) [
  | inl e ↦ rw e (ground (arith, code-of_code (48 + n) (omega arith)))
  | inr e ↦ rw e (ground (arith, code-of_code (87 + n) (omega arith)))
]

before-escape_as :
    (f : Form) (c : Char) (s t : String) → before (escape_as f c s) t ≡ escape_as f c (before s t)
unfolding before escape_as
before-escape_as plain c s t = refl
before-escape_as (short d) c s t = refl
before-escape_as numbered c s t = refl

-- The scanner passes over a character that is written as it is.
scan-plain :
    (c : Char) (b s rest : String)
    → IsPlain c
    → scan (in_text b s) (String.◌∷◌ c rest) ≡ scan (in_text b (with_char s c)) rest
unfolding scan scan_next IsPlain
scan-plain c b s rest (f, q, k, l) = rw (q, k, l) refl

scan-short :
    (d : Char) (b s rest : String)
    → is_escape d ≡ true
    → (code d == 117) ≡ false
    → scan (in_text b s) (String.◌∷◌ "\\" (String.◌∷◌ d rest))
      ≡ scan (in_text b (with_char (with_char s "\\") d)) rest
unfolding scan scan_next
scan-short d b s rest e u = rw (u, e) refl

scan-numbered :
    (w x y z : Char) (k l m n : ℕ) (b s rest : String)
    → hex_value w ≡ some k
    → hex_value x ≡ some l
    → hex_value y ≡ some m
    → hex_value z ≡ some n
    → scan (in_text b s) (
        String.◌∷◌ "\\"
          (String.◌∷◌ "u" (String.◌∷◌ w (String.◌∷◌ x (String.◌∷◌ y (String.◌∷◌ z rest))))))
      ≡ scan
          (in_text b (
            with_char
              (with_char (with_char (with_char (with_char (with_char s "\\") "u") w) x) y)
              z))
          rest
unfolding scan scan_next hex_next
scan-numbered w x y z k l m n b s rest hw hx hy hz = rw (hw, hx, hy, hz) refl

scan-escape_as :
    (c : Char) (b s rest : String)
    → scan (in_text b s) (escape_as (form c) c rest)
      ≡ scan (in_text b (before s (escape_as (form c) c ""))) rest
unfolding escape_as IsPlain IsShort IsNumbered before
scan-escape_as c b s rest = elim (form_cases c) [
  | inl (f, q, k, l) ↦ rw f (scan-plain c b s rest (f, q, k, l))
  | inr (inl (d, f, e, u, k)) ↦ rw f (scan-short d b s rest e u ∙ simp before_assoc)
  | inr (inr (f, k)) ↦ rw f (
      scan-numbered _ _ _ _ _ _ _ _ b s rest (hex_value-hex_digit (code c / 4096) (omega arith))
        (hex_value-hex_digit (code c / 256 % 16) (omega arith))
        (hex_value-hex_digit (code c / 16 % 16) (omega arith))
        (hex_value-hex_digit (code c % 16) (omega arith))
      ∙ simp before_assoc)
]

-- The scanner passes over what `escape` writes.
pub scan-escape :
    (t b s rest : String)
    → scan (in_text b s) (escape t rest) ≡ scan (in_text b (before s (escape t ""))) rest
unfolding escape before
scan-escape String.[] b s rest = rw before-nil refl
scan-escape (String.◌∷◌ c t) b s rest =
    scan-escape_as c b s (escape t rest)
    ∙ (scan-escape t b (before s (escape_as (form c) c "")) rest
        ∙ ap (λ u. scan (in_text b u) rest)
            (before_assoc s (escape_as (form c) c "") (escape t "")
              ∙ ap (before s) (before-escape_as (form c) c "" (escape t ""))))

unquote-plain :
    (c : Char) (rest : String)
    → IsPlain c
    → unquote_from outside (String.◌∷◌ c rest) ≡ String.◌∷◌ c (unquote_from outside rest)
unfolding unquote_from unquote_next IsPlain before
unquote-plain c rest (f, q, k, l) = rw k refl

unquote-short :
    (d c : Char) (rest : String)
    → (code d == 117) ≡ false
    → short_char d ≡ c
    → unquote_from outside (String.◌∷◌ "\\" (String.◌∷◌ d rest))
      ≡ String.◌∷◌ c (unquote_from outside rest)
unfolding unquote_from unquote_next before
unquote-short d c rest u e = rw (u, e) refl

unquote-numbered :
    (c w x y z : Char) (k l m n : ℕ) (rest : String)
    → hex_value w ≡ some k
    → hex_value x ≡ some l
    → hex_value y ≡ some m
    → hex_value z ≡ some n
    → numbered_char ((((0 * 16 + k) * 16 + l) * 16 + m) * 16 + n) none ≡ (String.◌∷◌ c "", outside)
    → unquote_from outside (
        String.◌∷◌ "\\"
          (String.◌∷◌ "u" (String.◌∷◌ w (String.◌∷◌ x (String.◌∷◌ y (String.◌∷◌ z rest))))))
      ≡ String.◌∷◌ c (unquote_from outside rest)
unfolding unquote_from unquote_next unquote_hex before
unquote-numbered c w x y z k l m n rest hw hx hy hz e = rw (hw, hx, hy, hz, e) refl

numbered_char-code :
    (c : Char) (v : ℕ)
    → code c < 55296
    → v ≡ code c
    → numbered_char v none ≡ (String.◌∷◌ c "", outside)
unfolding numbered_char
numbered_char-code c v h e =
    let low : leb 55296 (code c) ≡ false = ground arith in
    let same : of_code (code c) ≡ c = Char-path _ c (code-of_code (code c) h) in
    rw (e, low, same) refl

unquote-escape_as :
    (c : Char) (rest : String)
    → unquote_from outside (escape_as (form c) c rest) ≡ String.◌∷◌ c (unquote_from outside rest)
unfolding escape_as IsPlain IsShort IsNumbered
unquote-escape_as c rest = elim (form_cases c) [
  | inl (f, q, k, l) ↦ rw f (unquote-plain c rest (f, q, k, l))
  | inr (inl (d, f, e, u, k)) ↦ rw f (unquote-short d c rest u k)
  | inr (inr (f, k)) ↦ rw f (
      unquote-numbered c _ _ _ _ _ _ _ _ rest (hex_value-hex_digit (code c / 4096) (omega arith))
        (hex_value-hex_digit (code c / 256 % 16) (omega arith))
        (hex_value-hex_digit (code c / 16 % 16) (omega arith))
        (hex_value-hex_digit (code c % 16) (omega arith)) (numbered_char-code c _ k (omega arith)))
]

-- `unquote` reads back what `escape` wrote.
pub unquote-escape : (t : String) → unquote (escape t "") ≡ t
unfolding escape unquote unquote_from
unquote-escape String.[] = refl
unquote-escape (String.◌∷◌ c t) =
    unquote-escape_as c (escape t "") ∙ ap (String.◌∷◌ c) (unquote-escape t)
