-- ===== src/Mapper.antt =====
-- internal/core/mapper/event_message.go: an EventMessage as JSON and back, with encoding/json of Json.
pub mod RoundTrip
pub mod Bounds
use event_observability_plat.Common.{
  ◌≡◌, refl, ℕ, suc, String, Option, none, some, List, if◌then◌else◌, ℤ, pos, negsuc, itoa,
}
use event_observability_plat.Errors.{Err, wrapped, external, Result, ok, err}
use event_observability_plat.Domain.{EventMessage}
use event_observability_plat.Json.{before, int_text}
use event_observability_plat.Json.Text.{escape}
use event_observability_plat.Json.Tokens.{Token}
use event_observability_plat.Json.Values.{whole_value}
use event_observability_plat.Json.Fields.{
  Member, names, string_field, int_field, decode_struct, decode_value,
}

-- `json.Marshal` of an EventMessage, which never fails.
unfoldable pub encode : EventMessage → String
unfolding before escape int_text
encode msg =
    before "{\"event_id\":\""
      (escape msg.event_id (before "\",\"attempt\":" (before (int_text msg.attempt) "}")))

-- `MarshalEventMessage`
unfoldable pub marshal_event_message : EventMessage → Result String
unfolding encode
marshal_event_message msg = ok (encode msg)

abbrev pub with_id : EventMessage → Option String → Option EventMessage
with_id msg none = none
with_id msg (some id) = some (record msg { event_id = id })

abbrev pub with_attempt : EventMessage → Option ℤ → Option EventMessage
with_attempt msg none = none
with_attempt msg (some n) = some (record msg { attempt = n })

-- What a member does to the message.
unfoldable pub set_member : Member → EventMessage → Option EventMessage
unfolding names string_field int_field
set_member (key, value) msg =
    if names "event_id" key
    then with_id msg (string_field value msg.event_id)
    else if names "attempt" key
    then with_attempt msg (int_field value msg.attempt)
    else some msg

abbrev pub zero_message : EventMessage
zero_message = record { event_id = ""; attempt = pos 0 }

-- `json.Unmarshal` into an EventMessage.
unfoldable pub decode : String → Option EventMessage
unfolding whole_value decode_struct set_member
decode s = decode_value set_member (whole_value s) zero_message

module _ (reason : String → String) where
  abbrev pub unmarshalled : String → Option EventMessage → Result EventMessage
  unmarshalled s (some msg) = ok msg
  unmarshalled s none = err (wrapped "unmarshal event message" (external (reason s)))

  -- `UnmarshalEventMessage`; `reason` is the text of the error that encoding/json gives for this text.
  unfoldable pub unmarshal_event_message : String → Result EventMessage
  unfolding decode
  unmarshal_event_message s = unmarshalled s (decode s)
