-- ===== src/Mapper/Bounds.antt =====
-- A message that is decoded has an attempt that fits in an `int`.
use mathlib.Core.Path.{subst}
use event_observability_plat.Common.{
  ◌≡◌, refl, ◌==◌, Bool-cases, arith, inl, inr, ℕ, String, Option, none, some, List, [], ◌∷◌, ℤ,
  pos, negsuc, zero, suc, ◌<ℤ◌, ◌+ℤ◌,
}
use event_observability_plat.Config.{natural, positive, negative, atoi}
use Prim.Native.Char.{code}
use event_observability_plat.Domain.{EventMessage}
use event_observability_plat.Json.Numerals.{IsInt64}
use event_observability_plat.Json.Tokens.{Token, number, null}
use event_observability_plat.Json.Values.{whole_value}
use event_observability_plat.Json.Fields.{Member, int_field, names, string_field, is_kind}
use event_observability_plat.Json.Structs.{decode_value-Keeps}
use event_observability_plat.Mapper.{
  with_id, with_attempt, set_member, zero_message, decode, unmarshalled, unmarshal_event_message,
}
use event_observability_plat.Errors.{ok}

positive-IsInt64 : (n : Option ℕ) (z : ℤ) → positive n ≡ some z → IsInt64 z
positive-IsInt64 none z e = absurd (ground arith)
positive-IsInt64 (some n) z e = ground arith

negative-IsInt64 : (n : Option ℕ) (z : ℤ) → negative n ≡ some z → IsInt64 z
negative-IsInt64 none z e = absurd (ground arith)
negative-IsInt64 (some n) z e = ground arith

atoi-IsInt64 : (s : String) (z : ℤ) → atoi s ≡ some z → IsInt64 z
unfolding atoi
atoi-IsInt64 String.[] z e = absurd (ground arith)
atoi-IsInt64 (String.◌∷◌ c s) z e = elim (Bool-cases (code c == 45)) [
  | inl a ↦ negative-IsInt64 (natural s) z (rw a at e)
  | inr a ↦ elim (Bool-cases (code c == 43)) [
    | inl b ↦ positive-IsInt64 (natural s) z (rw (a, b) at e)
    | inr b ↦ positive-IsInt64 (natural (String.◌∷◌ c s)) z (rw (a, b) at e)
  ]
]

int_field-IsInt64 :
    (value : List Token) (old z : ℤ) → IsInt64 old → int_field value old ≡ some z → IsInt64 z
unfolding int_field
int_field-IsInt64 [] old z h e = absurd (ground arith)
int_field-IsInt64 (t ∷ u ∷ ts) old z h e = absurd (ground arith)
int_field-IsInt64 (t ∷ []) old z h e = elim (Bool-cases (is_kind number t.kind)) [
  | inl k ↦ atoi-IsInt64 t.content z (rw k at e)
  | inr k ↦ elim (Bool-cases (is_kind null t.kind)) [
    | inl l ↦ let same : old ≡ z = ground (arith, k, l, e) in subst IsInt64 same h
    | inr l ↦ absurd (ground (arith, k, l, e))
  ]
]

with_attempt-IsInt64 :
    (msg msg' : EventMessage) (n : Option ℤ)
    → ((z : ℤ) → n ≡ some z → IsInt64 z)
    → with_attempt msg n ≡ some msg'
    → IsInt64 msg'.attempt
with_attempt-IsInt64 msg msg' none h e = absurd (ground arith)
with_attempt-IsInt64 msg msg' (some n) h e =
    let same : n ≡ msg'.attempt = ground arith in subst IsInt64 same (h n refl)

with_id_attempt :
    (msg msg' : EventMessage) (id : Option String)
    → with_id msg id ≡ some msg'
    → msg.attempt ≡ msg'.attempt
with_id_attempt msg msg' none e = absurd (ground arith)
with_id_attempt msg msg' (some id) e = ground arith

set_member-IsInt64 :
    (x : Member) (msg msg' : EventMessage)
    → set_member x msg ≡ some msg'
    → IsInt64 msg.attempt
    → IsInt64 msg'.attempt
unfolding set_member
set_member-IsInt64 (key, value) msg msg' e h = elim (Bool-cases (names "event_id" key)) [
  | inl a ↦ subst IsInt64 (with_id_attempt msg msg' (string_field value msg.event_id) (rw a at e)) h
  | inr a ↦ elim (Bool-cases (names "attempt" key)) [
    | inl b ↦
        with_attempt-IsInt64 msg msg' (int_field value msg.attempt)
          (λ z. int_field-IsInt64 value msg.attempt z h) (rw (a, b) at e)
    | inr b ↦
        let same : msg ≡ msg' = ground (arith, a, b, e) in subst (λ x. IsInt64 x.attempt) same h
  ]
]

-- The attempt of a message that is decoded is an int of 64 bits.
pub decode-IsInt64 : (s : String) (msg : EventMessage) → decode s ≡ some msg → IsInt64 msg.attempt
unfolding decode
decode-IsInt64 s msg e =
    decode_value-Keeps set_member (λ msg'. IsInt64 msg'.attempt) set_member-IsInt64 (whole_value s)
      zero_message msg e (omega arith)

unmarshalled-some :
    (reason : String → String) (s : String) (o : Option EventMessage) (msg : EventMessage)
    → unmarshalled reason s o ≡ ok msg
    → o ≡ some msg
unmarshalled-some reason s none msg e = absurd (ground arith)
unmarshalled-some reason s (some x) msg e = ground arith

pub decode_of_unmarshal :
    (reason : String → String) (s : String) (msg : EventMessage)
    → unmarshal_event_message reason s ≡ ok msg
    → decode s ≡ some msg
unfolding unmarshal_event_message
decode_of_unmarshal reason s msg e = unmarshalled-some reason s (decode s) msg e

-- What is below an int of 64 bits has a successor that is one.
pub IsInt64-next : (a b : ℤ) → IsInt64 a → IsInt64 b → a <ℤ b → IsInt64 (a +ℤ pos 1)
unfolding ◌+ℤ◌
IsInt64-next (pos n) (pos k) h g l = ground arith
IsInt64-next (pos n) (negsuc k) h g l = absurd (omega arith)
IsInt64-next (negsuc zero) b h g l = omega arith
IsInt64-next (negsuc (suc n)) b h g l = ground arith
