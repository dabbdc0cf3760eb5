-- ===== src/Json/Numerals.antt =====
-- The decimal digits of an integer are one number token, and are read back as that integer.
use Prim.Native.Char.{Char, code}
use event_observability_plat.Common.{
  ℕ, zero, suc, ◌/◌, ◌%◌, ◌^◌, ◌<◌, ◌≡◌, refl, ◌∙◌, inl, inr, arith, true, false, String, some, [],
  ◌∷◌, ◌==◌, Bool-cases, ℤ, pos, negsuc, digit, itoa, itoa_from,
}
use event_observability_plat.Config.{atoi}
use event_observability_plat.Config.Numbers.{code-digit, natural-itoa, atoi-natural}
use event_observability_plat.Json.{before, before_assoc, before-nil, int_text}
use event_observability_plat.Json.Tokens.{
  token, number, close_object, whole, minus, between, in_number, scan_next, scan, is_digit,
  with_char, number_goes_on, number_next, start,
}

AllDigits : String → Type 0
AllDigits String.[] = Unit
AllDigits (String.◌∷◌ c s) = (is_digit c ≡ true) × AllDigits s

-- Digits of which the first is not zero.
IsNumeral : String → Type 0
unfolding AllDigits
IsNumeral String.[] = ⊥
IsNumeral (String.◌∷◌ c s) = (is_digit c ≡ true) × ((code c == 48) ≡ false) × AllDigits s

digit-IsDigit : (d : ℕ) → d < 10 → is_digit (digit d) ≡ true
digit-IsDigit d h = ground (arith, code-digit d h)

itoa_from-IsNumeral :
    (fuel n : ℕ) (acc : String)
    → n < suc fuel
    → 0 < n
    → AllDigits acc
    → IsNumeral (itoa_from (suc fuel) n acc)
unfolding itoa_from IsNumeral AllDigits
itoa_from-IsNumeral zero n acc h p a = absurd (omega arith)
itoa_from-IsNumeral (suc fuel) n acc h p a = elim (Bool-cases (n / 10 == 0)) [
  | inl e ↦
      let d : is_digit (digit (n % 10)) ≡ true = digit-IsDigit (n % 10) (omega arith) in
      rw (e, itoa_from) (d, ground (arith, code-digit (n % 10)), a)
  | inr e ↦
      let d : is_digit (digit (n % 10)) ≡ true = digit-IsDigit (n % 10) (omega arith) in
      rw (e, itoa_from)
        (itoa_from-IsNumeral fuel (n / 10) (String.◌∷◌ (digit (n % 10)) acc) (ground arith)
          (ground arith) (d, a))
]

itoa-IsNumeral : (n : ℕ) → 0 < n → IsNumeral (itoa n)
unfolding itoa AllDigits
itoa-IsNumeral n p = itoa_from-IsNumeral n n "" (omega arith) p tt

scan-digits :
    (s b t rest : String)
    → AllDigits s
    → scan (in_number whole b t) (before s rest) ≡ scan (in_number whole b (before t s)) rest
unfolding scan scan_next number_next number_goes_on before AllDigits
scan-digits String.[] b t rest h = rw before-nil refl
scan-digits (String.◌∷◌ c s) b t rest (d, h) =
    rw d (scan-digits s b (with_char t c) rest h ∙ simp before_assoc)

start-numeral :
    (c : Char) (b : String)
    → is_digit c ≡ true
    → (code c == 48) ≡ false
    → start b c ≡ ([], in_number whole b (String.◌∷◌ c ""))
unfolding start
start-numeral c b d z = ground arith

-- A number ends in front of a brace.
scan-brace :
    (s : String)
    → scan (in_number whole "" s) "}" ≡ token number "" s ∷ token close_object "" "}" ∷ []
unfolding scan scan_next number_next number_goes_on start
scan-brace s = refl

scan-numeral :
    (s : String)
    → IsNumeral s
    → scan (between "") (before s "}") ≡ token number "" s ∷ token close_object "" "}" ∷ []
unfolding scan scan_next before IsNumeral
scan-numeral String.[] h = absurd h
scan-numeral (String.◌∷◌ c s) (d, z, h) =
    rw (start-numeral c "" d z)
      (scan-digits s "" (String.◌∷◌ c "") "}" h ∙ scan-brace (String.◌∷◌ c s))

scan-negative :
    (s : String)
    → IsNumeral s
    → scan (in_number minus "" "-") (before s "}")
      ≡ token number "" (String.◌∷◌ "-" s) ∷ token close_object "" "}" ∷ []
unfolding scan scan_next number_next number_goes_on before IsNumeral
scan-negative String.[] h = absurd h
scan-negative (String.◌∷◌ c s) (d, z, h) =
    rw (z, d)
      (scan-digits s "" (with_char "-" c) "}" h ∙ scan-brace (String.◌∷◌ "-" (String.◌∷◌ c s)))

-- The digits of an integer in front of a brace are one number.
pub scan-int_text :
    (z : ℤ)
    → scan (between "") (before (int_text z) "}")
      ≡ token number "" (int_text z) ∷ token close_object "" "}" ∷ []
unfolding int_text itoa before scan
scan-int_text (pos zero) = refl
scan-int_text (pos (suc n)) = scan-numeral (itoa (suc n)) (itoa-IsNumeral (suc n) (omega arith))
scan-int_text (negsuc n) = scan-negative (itoa (suc n)) (itoa-IsNumeral (suc n) (omega arith))

-- What fits in Go's `int` of 64 bits.
abbrev pub IsInt64 : ℤ → Type 0
IsInt64 (pos n) = n < 2 ^ 63
IsInt64 (negsuc n) = n < 2 ^ 63

pub atoi-int_text : (z : ℤ) → IsInt64 z → atoi (int_text z) ≡ some z
unfolding int_text atoi
atoi-int_text (pos n) h = atoi-natural (itoa n) n (natural-itoa n) h
atoi-int_text (negsuc n) h = rw (natural-itoa (suc n)) (ground arith)
