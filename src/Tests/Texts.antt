-- ===== src/Tests/Texts.antt =====
-- JSON at concrete texts.
use event_observability_plat.Common.{◌≡◌, refl, arith, none, some, pos, negsuc, itoa}
use event_observability_plat.Config.{atoi, natural, digits}
use event_observability_plat.Errors.{ok}
use event_observability_plat.Domain.{EventMessage}
use event_observability_plat.Json.{before}
use event_observability_plat.Json.Text.{of_code, unquote}
use event_observability_plat.Json.Tokens.{tokens}
use event_observability_plat.Json.Fields.{set_all, members}
use event_observability_plat.Mapper.{encode, decode, marshal_event_message, unmarshal_event_message}
use event_observability_plat.Mapper.RoundTrip.{unmarshal-marshal}

abbrev odd : EventMessage
odd = record { event_id = "a\n\"<é\u{2028}"; attempt = negsuc 11 }

odd_text : encode odd ≡ "{\"event_id\":\"a\\n\\\"\\u003cé\\u2028\",\"attempt\":-12}"
unfolding encode before of_code itoa
odd_text = refl

-- The last of two members counts, in any case of its letters; `null` and unknown members change nothing.
last_counts :
    decode
      "{\"attempt\":1, \"x\":[{}],\"EVENT_ID\":\"\\ud83d\\ude00\",\"attempt\":2,\"event_id\":null}"
    ≡ some (record { event_id = "😀"; attempt = pos 2 })
unfolding decode tokens set_all members before of_code unquote atoi natural digits
last_counts = refl

no_integer : decode "{\"attempt\":1.0}" ≡ none
unfolding decode tokens set_all members before of_code unquote atoi natural digits
no_integer = refl

null_is_zero : decode " null " ≡ some (record { event_id = ""; attempt = pos 0 })
unfolding decode tokens set_all members
null_is_zero = refl

trailing_text : decode "{} x" ≡ none
unfolding decode tokens set_all members before
trailing_text = refl

unmarshal-marshal_example :
    (marshal_event_message odd ≡ ok (encode odd))
    × (unmarshal_event_message (λ s. "invalid JSON") (encode odd) ≡ ok odd)
unmarshal-marshal_example = unmarshal-marshal (λ s. "invalid JSON") odd (omega arith)
