-- ===== src/Tests/Pipeline.antt =====
-- The server, alone and with the worker, at concrete inputs.
use event_observability_plat.Common.{
  some, ◌≡◌, refl, arith, str_eq_iff, trim_space, [], ◌∷◌, ◌++◌, ◌<ℤ◌, ◌+ℤ◌, none, pos,
}
use event_observability_plat.Tests.Machines.{
  body_text, sound, fails_at, handler, body, incoming, old, stale,
}
use event_observability_plat.Http.Webhook.{decode_request, replay, handle_event}
use event_observability_plat.Json.Fields.{set_all, members}
use event_observability_plat.Json.Text.{of_code, unquote}
use event_observability_plat.Json.Tokens.{tokens}
use event_observability_plat.Json.{before}
use event_observability_plat.Domain.{Event, ttl}
use event_observability_plat.Runtime.{World}
use event_observability_plat.Storage.Events.{find_row}
use event_observability_plat.Storage.Idempotency.{Keys, find_key}
use event_observability_plat.Storage.Memory.{get, set_each, expired_for_good}
use event_observability_plat.Http.{webhook_response, write_json}
use event_observability_plat.Http.Webhook.Validation.{IsComplete, validate_iff}
use event_observability_plat.Http.Webhook.Statuses.{Tells, handle-Tells}
use event_observability_plat.Http.Webhook.Replay.{
  Reaches, IsSound, new_id, added, cached, accepted, duplicate_is_absorbed, expired_key_admits_both,
}
use event_observability_plat.System.{empty}

body-IsComplete : IsComplete body
unfolding trim_space
body-IsComplete = record {
  has_key = refl;
  has_source = refl;
  has_type = refl;
  has_payload = ground (arith, str_eq_iff "{}" "");
  not_null = ground (arith, str_eq_iff "{}" "null");
}

body_text_parsed : decode_request body_text ≡ some body
unfolding decode_request tokens set_all members before of_code unquote
body_text_parsed = refl

pub body-Reaches : Reaches incoming body
body-Reaches = record {
  json = refl;
  parsed = body_text_parsed;
  valid = (validate_iff body).1 body-IsComplete;
}

-- The reply is 202, the message is handled, and the row is processed.
abbrev after_request : World
after_request = (handle_event sound handler incoming empty).1

unfoldable pub empty-IsSound : IsSound sound handler empty
unfolding find_row
empty-IsSound = record { quiet = λ k. refl; fresh = refl; publisher = refl }

not_expired :
    sound.clock (accepted sound handler body "t" empty empty-IsSound).tick
    <ℤ (cached sound handler body "t" empty empty-IsSound).expires_at
unfolding ttl ◌+ℤ◌
not_expired = omega arith

duplicate_is_absorbed_example :
    let one = handle_event sound handler incoming empty in
    let two = handle_event sound handler incoming one.1 in
    (one.0
      ≡ write_json 202 (webhook_response (new_id sound handler body "t" empty empty-IsSound) "t"))
    × (two.0 ≡ replay handler (cached sound handler body "t" empty empty-IsSound))
    × (two.1.events ≡ [] ++ added sound handler body "t" empty empty-IsSound ∷ [])
    × (two.1.events ≡ one.1.events)
    × (two.1.sent ≡ one.1.sent)
    × (two.1.keys ≡ one.1.keys)
duplicate_is_absorbed_example =
    duplicate_is_absorbed sound handler body "t" empty empty-IsSound incoming incoming body refl
      body-Reaches body-Reaches refl (unfold find_key in refl) not_expired

handle-Tells_example :
    Tells
      (handle_event (fails_at 5) handler incoming empty).0
      empty
      (handle_event (fails_at 5) handler incoming empty).1
handle-Tells_example = handle-Tells (fails_at 5) handler incoming empty

stale-IsSound : IsSound sound handler stale
unfolding find_row
stale-IsSound = record { quiet = λ k. refl; fresh = refl; publisher = refl }

abbrev stale_accepted : World
stale_accepted = accepted sound handler body "t" stale stale-IsSound

accepted-IsSound : IsSound sound handler stale_accepted
unfolding find_row
accepted-IsSound = record { quiet = λ k. refl; fresh = refl; publisher = refl }

expired_key_admits_both_example :
    let one = handle_event sound handler incoming stale in
    let two = handle_event sound handler incoming one.1 in
    (one.0.status ≡ 202)
    × (two.0.status ≡ 202)
    × ((e : Event) × (e' : Event) × (e.idempotency_key ≡ "k")
        × (e'.idempotency_key ≡ "k")
        × (two.1.events ≡ ([] ++ e ∷ []) ++ e' ∷ []))
    × (two.1.keys ≡ stale.keys)
expired_key_admits_both_example =
    expired_key_admits_both sound handler incoming incoming body body stale old stale-IsSound
      accepted-IsSound body-Reaches body-Reaches refl (unfold find_key in refl) (λ k. omega arith)

-- A map in which the entry of "k" expired at the instant 7, and two attempts to store a new one.
abbrev expired_map : Keys
expired_map = ("k", old) ∷ []

expired_for_good_example :
    get (set_each expired_map "k" (record old { expires_at = pos 90 } ∷ old ∷ [])) (pos 9) "k"
    ≡ none
expired_for_good_example =
    expired_for_good expired_map "k" old (record old { expires_at = pos 90 } ∷ old ∷ []) (pos 8)
      (pos 9) (unfold find_key in refl) (omega arith) (omega arith)
