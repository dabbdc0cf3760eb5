-- ===== src/Config/Loaded.antt =====
-- When a configuration is loaded, and what it holds where nothing is set.
use Prim.Native.Char.{code}
use event_observability_plat.Common.{
  ℕ, zero, suc, ◌≡◌, ◌≢◌, ◌↔◌, inl, inr, refl, ap, ◌==◌, arith, String, false, str_eq, str_eq_iff,
  Bool-cases, List, [], ◌∷◌, All, trim_space, split, push_front,
}
use event_observability_plat.Errors.{ok}
use event_observability_plat.Config.{
  Config, Environ, require_env, get_env_string_slice, settings, load, trimmed,
}

-- `Load` succeeds exactly when POSTGRES_DSN is set: no other variable, however malformed, makes it fail.
pub load_iff :
    (env : Environ) → ((c : Config) × (load env ≡ ok c)) ↔ (env.getenv "POSTGRES_DSN" ≢ "")
unfolding load require_env
load_iff env = (
  λ h. ground (arith, h.1, str_eq_iff (env.getenv "POSTGRES_DSN") ""),
  λ h.
      let set : str_eq (env.getenv "POSTGRES_DSN") "" ≡ false =
        ground (arith, str_eq_iff (env.getenv "POSTGRES_DSN") "") in
      (settings env (env.getenv "POSTGRES_DSN"), ground arith),
)

-- A text that is not empty.
abbrev pub IsNonempty : String → Type 0
IsNonempty s = s ≢ ""

trimmed-IsNonempty : (parts : List String) → All IsNonempty (trimmed parts)
unfolding trimmed
trimmed-IsNonempty [] = tt
trimmed-IsNonempty (p ∷ parts) = elim (Bool-cases (str_eq (trim_space p) "")) [
  | inl e ↦ rw e (trimmed-IsNonempty parts)
  | inr e ↦ rw e ((λ h. ground (arith, str_eq_iff (trim_space p) "")), trimmed-IsNonempty parts)
]

-- n commas in a row.
unfoldable pub commas : ℕ → String
commas zero = ""
commas (suc n) = String.◌∷◌ "," (commas n)

trimmed-commas : (n : ℕ) → trimmed (split "," (commas n)) ≡ []
unfolding trimmed split commas trim_space
trimmed-commas zero = refl
trimmed-commas (suc n) = trimmed-commas n

split_empty : split "," "" ≡ "" ∷ []
unfolding split
split_empty = refl

split_comma : (s : String) → split "," (String.◌∷◌ "," s) ≡ "" ∷ split "," s
unfolding split
split_comma s = refl

split_some : (s : String) → split "," s ≢ []
unfolding split push_front
split_some String.[] h = ground arith
split_some (String.◌∷◌ c s) h = elim (Bool-cases (code c == code ",")) [
  | inl e ↦ ground (arith, e)
  | inr e ↦ ground (arith, e, split_some s)
]

commas_set : (n : ℕ) → str_eq (commas (suc n)) "" ≡ false
unfolding commas
commas_set n = elim (Bool-cases (str_eq (commas (suc n)) "")) [
  | inl e ↦ absurd (
      ground (
        arith,
        ap (split ",") ((str_eq_iff (commas (suc n)) "").0 e),
        split_comma (commas n),
        split_empty,
        split_some (commas n),
      ))
  | inr e ↦ e
]

-- Whatever the environment holds, no part of a list that it gives is the empty text, unless one of the
-- fallback is; and a variable that holds commas alone gives no part at all, and not the fallback.
pub get_env_string_slice-All :
    (env : Environ) (key : String) (fallback : List String)
    → All IsNonempty fallback
    → All IsNonempty (get_env_string_slice env key fallback)
      × ((n : ℕ) → env.getenv key ≡ commas (suc n) → get_env_string_slice env key fallback ≡ [])
unfolding get_env_string_slice
get_env_string_slice-All env key fallback h = (
  elim (Bool-cases (str_eq (env.getenv key) "")) [
    | inl e ↦ rw e h
    | inr e ↦ rw e (trimmed-IsNonempty (split "," (env.getenv key)))
  ],
  λ n e. rw e (rw (commas_set n) (trimmed-commas (suc n))),
)
