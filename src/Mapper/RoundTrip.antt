-- ===== src/Mapper/RoundTrip.antt =====
-- A message that is encoded is decoded to itself.
use event_observability_plat.Common.{
  ◌≡◌, refl, ap, ◌∙◌, String, some, Option-cases, inl, inr, arith, sym, List, [], ◌∷◌, ℤ, Option,
  none,
}
use event_observability_plat.Errors.{ok}
use event_observability_plat.Domain.{EventMessage}
use event_observability_plat.Config.{atoi}
use event_observability_plat.Json.{before, int_text}
use event_observability_plat.Json.Text.{escape, unquote, of_code}
use event_observability_plat.Json.Quoted.{scan-escape, unquote-escape}
use event_observability_plat.Json.Numerals.{IsInt64, scan-int_text, atoi-int_text}
use event_observability_plat.Json.Tokens.{
  Token, token, open_object, close_object, colon, comma, text, number, in_text, scan, tokens,
}
use event_observability_plat.Json.Values.{first_value, a_value, whole_value, alone}
use event_observability_plat.Json.Fields.{
  decode_struct, decode_value, Member, set_all, members, at_key, names,
}
use event_observability_plat.Mapper.{
  encode, decode, set_member, zero_message, unmarshalled, marshal_event_message,
  unmarshal_event_message,
}

-- The tokens of a message.
abbrev message_tokens : String → String → List Token
message_tokens id n =
    token open_object "" "{"
    ∷ token text "" "event_id"
    ∷ token colon "" ":"
    ∷ token text "" id
    ∷ token comma "" ","
    ∷ token text "" "attempt"
    ∷ token colon "" ":"
    ∷ token number "" n
    ∷ token close_object "" "}"
    ∷ []

tail_tokens : String → List Token
tail_tokens n =
    token comma "" ","
    ∷ token text "" "attempt"
    ∷ token colon "" ":"
    ∷ token number "" n
    ∷ token close_object "" "}"
    ∷ []

scan_tail :
    (n : ℤ) (id : String)
    → scan (in_text "" id) (before "\",\"attempt\":" (before (int_text n) "}"))
      ≡ token text "" id ∷ tail_tokens (int_text n)
unfolding scan before tail_tokens
scan_tail n id =
    ap
      (λ ts.
        token text "" id ∷ token comma "" "," ∷ token text "" "attempt" ∷ token colon "" ":" ∷ ts)
      (scan-int_text n)

tokens-encode :
    (msg : EventMessage)
    → tokens (encode msg) ≡ message_tokens (escape msg.event_id "") (int_text msg.attempt)
unfolding tokens encode scan before tail_tokens
tokens-encode msg =
    ap (λ ts. token open_object "" "{" ∷ token text "" "event_id" ∷ token colon "" ":" ∷ ts)
      (scan-escape msg.event_id "" "" _ ∙ scan_tail msg.attempt (escape msg.event_id ""))

whole_value-encode :
    (msg : EventMessage)
    → whole_value (encode msg)
      ≡ some (message_tokens (escape msg.event_id "") (int_text msg.attempt))
unfolding whole_value first_value
whole_value-encode msg = ap (λ ts. alone (first_value [] a_value ts)) (tokens-encode msg)

abbrev message_members : String → String → List Member
message_members id n =
    ("event_id", token text "" id ∷ []) ∷ ("attempt", token number "" n ∷ []) ∷ []

-- What is behind the brace.
members-message :
    (id n : String)
    → members at_key
        (token text "" "event_id" ∷ token colon "" ":" ∷ token text "" id ∷ tail_tokens n)
      ≡ message_members id n
unfolding members unquote before tail_tokens
members-message id n = refl

-- What is read of a message with this event id, by what its attempt is read as.
read_back : String → Option ℤ → Option EventMessage
read_back id none = none
read_back id (some n) = some (record { event_id = id; attempt = n })

set_all-message :
    (id n : String)
    → set_all set_member (message_members (escape id "") n) zero_message ≡ read_back id (atoi n)
unfolding set_all set_member names of_code read_back
set_all-message id n = elim (Option-cases (atoi n)) [
  | inl e ↦ rw (unquote-escape id, e) refl
  | inr (a, e) ↦ rw (unquote-escape id, e) refl
]

decode-read_back :
    (msg : EventMessage)
    → decode (encode msg) ≡ read_back msg.event_id (atoi (int_text msg.attempt))
unfolding decode decode_struct tail_tokens
decode-read_back msg =
    let id = escape msg.event_id "" in
    let n = int_text msg.attempt in
    ap (λ value. decode_value set_member value zero_message) (whole_value-encode msg)
    ∙ (ap (λ xs. set_all set_member xs zero_message) (members-message id n)
        ∙ set_all-message msg.event_id n)

pub decode-encode : (msg : EventMessage) → IsInt64 msg.attempt → decode (encode msg) ≡ some msg
unfolding read_back
decode-encode msg h =
    decode-read_back msg ∙ ap (read_back msg.event_id) (atoi-int_text msg.attempt h)

-- A message whose attempt is an int of 64 bits is read back as it was written, whatever characters its event id has.
pub unmarshal-marshal :
    (reason : String → String) (msg : EventMessage)
    → IsInt64 msg.attempt
    → (marshal_event_message msg ≡ ok (encode msg))
      × (unmarshal_event_message reason (encode msg) ≡ ok msg)
unfolding unmarshal_event_message marshal_event_message
unmarshal-marshal reason msg h = (refl, ap (unmarshalled reason (encode msg)) (decode-encode msg h))

read_back_id :
    (id : String) (n : Option ℤ) (msg : EventMessage)
    → read_back id n ≡ some msg
    → msg.event_id ≡ id
unfolding read_back
read_back_id id n msg e = ground arith

-- Whatever its attempt, a message is decoded to none but its own event id.
pub decode-encode_id :
    (msg msg' : EventMessage) → decode (encode msg) ≡ some msg' → msg'.event_id ≡ msg.event_id
decode-encode_id msg msg' e =
    read_back_id msg.event_id (atoi (int_text msg.attempt)) msg' (sym (decode-read_back msg) ∙ e)
