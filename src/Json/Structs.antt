-- ===== src/Json/Structs.antt =====
-- What every member keeps, the decoding of a struct keeps.
use mathlib.Core.Path.{subst}
use event_observability_plat.Common.{
  Bool-cases, ◌≡◌, arith, inl, inr, Option, Option-cases, none, some, List, [], ◌∷◌,
}
use event_observability_plat.Json.Tokens.{Token, open_object, null}
use event_observability_plat.Json.Fields.{
  Member, set_all, decode_struct, decode_value, members, at_key, is_kind,
}

module _ {A : Type 0} (set : Member → A → Option A) (P : A → Type 0)
    (keeps : (x : Member) (a a' : A) → set x a ≡ some a' → P a → P a') where
  set_all-Keeps : (xs : List Member) (a a' : A) → set_all set xs a ≡ some a' → P a → P a'
  unfolding set_all
  set_all-Keeps [] a a' e p = let same : a ≡ a' = ground arith in subst P same p
  set_all-Keeps (x ∷ xs) a a' e p = elim (Option-cases (set x a)) [
    | inl bad ↦ absurd (ground (arith, bad, e))
    | inr (b, good) ↦ set_all-Keeps xs b a' (rw good at e) (keeps x a b good p)
  ]

  decode_struct-Keeps : (ts : List Token) (a a' : A) → decode_struct set ts a ≡ some a' → P a → P a'
  unfolding decode_struct
  decode_struct-Keeps [] a a' e p = absurd (ground arith)
  decode_struct-Keeps (t ∷ ts) a a' e p = elim (Bool-cases (is_kind open_object t.kind)) [
    | inl k ↦ set_all-Keeps (members at_key ts) a a' (rw k at e) p
    | inr k ↦ elim (Bool-cases (is_kind null t.kind)) [
      | inl l ↦ let same : a ≡ a' = ground (arith, k, l, e) in subst P same p
      | inr l ↦ absurd (ground (arith, k, l, e))
    ]
  ]

  pub decode_value-Keeps :
      (value : Option (List Token)) (a a' : A) → decode_value set value a ≡ some a' → P a → P a'
  decode_value-Keeps none a a' e p = absurd (ground arith)
  decode_value-Keeps (some ts) a a' e p = decode_struct-Keeps ts a a' e p
