-- ===== src/Config/Numbers.antt =====
-- Numbers and lists as the environment gives them.
use Prim.Native.Char.{code}
use event_observability_plat.Common.{
  ℕ, zero, suc, ◌+◌, ◌/◌, ◌%◌, ◌^◌, ◌<◌, ◌≡◌, refl, ap, inl, inr, Bool-cases, arith, String, false,
  str_eq, str_eq_iff, none, some, ℤ, pos, itoa, itoa_from, digit,
}
use event_observability_plat.Config.{Environ, digits, natural, atoi, get_env_int}

pub code-digit : (d : ℕ) → d < 10 → code (digit d) ≡ 48 + d
unfolding digit
code-digit zero h = refl
code-digit (suc zero) h = refl
code-digit (suc (suc zero)) h = refl
code-digit (suc (suc (suc zero))) h = refl
code-digit (suc (suc (suc (suc zero)))) h = refl
code-digit (suc (suc (suc (suc (suc zero))))) h = refl
code-digit (suc (suc (suc (suc (suc (suc zero)))))) h = refl
code-digit (suc (suc (suc (suc (suc (suc (suc zero))))))) h = refl
code-digit (suc (suc (suc (suc (suc (suc (suc (suc zero)))))))) h = refl
code-digit (suc (suc (suc (suc (suc (suc (suc (suc (suc zero))))))))) h = refl
code-digit (suc (suc (suc (suc (suc (suc (suc (suc (suc (suc d)))))))))) h = absurd (omega arith)

natural-itoa_from :
    (fuel n : ℕ) (acc : String) → n < suc fuel → natural (itoa_from (suc fuel) n acc) ≡ digits n acc
unfolding natural itoa_from digits
natural-itoa_from zero n acc h = ground (arith, code-digit (n % 10))
natural-itoa_from (suc fuel) n acc h =
    ground (
      arith,
      code-digit (n % 10),
      natural-itoa_from fuel (n / 10) (String.◌∷◌ (digit (n % 10)) acc),
    )

pub natural-itoa : (n : ℕ) → natural (itoa n) ≡ some n
unfolding itoa digits
natural-itoa n = natural-itoa_from n n "" (omega arith)

pub atoi-natural : (s : String) (n : ℕ) → natural s ≡ some n → n < 2 ^ 63 → atoi s ≡ some (pos n)
unfolding atoi natural digits
atoi-natural String.[] n h b = ground arith
atoi-natural (String.◌∷◌ c s) n h b = ground arith

natural-empty : natural "" ≡ none
unfolding natural
natural-empty = refl

natural_set : (s : String) (n : ℕ) → natural s ≡ some n → str_eq s "" ≡ false
natural_set s n h = elim (Bool-cases (str_eq s "")) [
  | inl e ↦
      let same : s ≡ "" = (str_eq_iff s "").0 e in
      absurd (ground (arith, h, ap natural same, natural-empty))
  | inr e ↦ e
]

-- A variable that is set to the decimal digits of a number below 2 ^ 63 is read as that number.
pub get_env_int-itoa :
    (env : Environ) (key : String) (n : ℕ) (fallback : ℤ)
    → env.getenv key ≡ itoa n
    → n < 2 ^ 63
    → get_env_int env key fallback ≡ pos n
unfolding get_env_int
get_env_int-itoa env key n fallback h b = rw h (
    ground
      (arith, natural_set (itoa n) n (natural-itoa n), atoi-natural (itoa n) n (natural-itoa n) b))
