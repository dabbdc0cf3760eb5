-- ===== src/Tests/Concurrent.antt =====
-- Requests and messages under way at once, at concrete inputs.
use event_observability_plat.Concurrent.Lost.{stored_once, retry_stores_twice}
use event_observability_plat.Errors.{external}
use event_observability_plat.Runtime.{Message, World, Machine}
use event_observability_plat.Common.{
  itoa, ◌≡◌, refl, ap, ◌∙◌, Option, some, List, [], ◌∷◌, ◌++◌, if◌then◌else◌, ltb,
}
use event_observability_plat.Json.{before, int_text}
use event_observability_plat.Json.Text.{escape}
use event_observability_plat.Mapper.{encode}
use event_observability_plat.Tests.Machines.{
  first_text, sound, fails_at, handler, incoming, worker, topics, body, stale,
}
use event_observability_plat.Domain.{Event}
use event_observability_plat.Storage.Events.{find_row}
use event_observability_plat.Storage.Events.Invariant.{IsWellFormed}
use event_observability_plat.Storage.Idempotency.{find_key, unexpired}
use event_observability_plat.Http.{Reply}
use event_observability_plat.Http.Webhook.Replay.{IsSound, Reaches-handle, accept_quiet}
use event_observability_plat.Concurrent.{finished, run}
use event_observability_plat.Concurrent.Steps.{
  Job, Part, request, message, part_of, state, begins, stops, Steps, here, next,
}
use event_observability_plat.Concurrent.WellFormed.{Steps-IsWellFormed}
use event_observability_plat.Concurrent.Growth.{Extends}
use event_observability_plat.Concurrent.Growth.Calls.{Steps-Extends}
use event_observability_plat.Concurrent.Alone.{handle, run-handle}
use event_observability_plat.Concurrent.Race.{first_done, both_are_admitted, Steps-run}
use event_observability_plat.System.{empty}
use event_observability_plat.Tests.Pipeline.{body-Reaches, empty-IsSound}
use event_observability_plat.Ingest.Success.{message_of}
use event_observability_plat.Concurrent.Stored.{HaveEvents}
use event_observability_plat.Concurrent.Stored.Queued.{
  IsQueued, AreQueued, Steps-HaveEvents, run_queued,
}

-- A request comes in, and is handled after a message that comes in later; a third one is given up.
abbrev first : World → World
first w = (run (part_of (message sound worker topics first_text)) w).1

abbrev second : World → World
second w = (run (part_of (request sound handler incoming)) (first w)).1

abbrev replies : World → List Part
replies w =
    finished (run (part_of (request sound handler incoming)) (first w)).0
    ∷ finished (run (part_of (message sound worker topics first_text)) w).0
    ∷ []

overtaken : (w : World) → Steps (state w []) (state (second w) (replies w))
overtaken w =
    let p = part_of (request sound handler incoming) in
    let q = part_of (message sound worker topics first_text) in
    let begun : Steps (state w []) (state w (p ∷ q ∷ [])) =
      next (next here (begins (request sound handler incoming) w []))
        (begins (message sound worker topics first_text) w (p ∷ [])) in
    Steps-run p (first w) [] (finished (run q w).0 ∷ []) (Steps-run q w (p ∷ []) [] begun)

given_up : (w : World) → Steps (state w []) (state (second w) (replies w))
given_up w =
    let p = part_of (request (fails_at 5) handler incoming) in
    next
      (next (overtaken w) (begins (request (fails_at 5) handler incoming) (second w) (replies w)))
      (stops p (second w) (replies w) [])

Steps-IsWellFormed_example : IsWellFormed (second empty)
Steps-IsWellFormed_example =
    Steps-IsWellFormed (state (second empty) (replies empty)) (given_up empty)

Steps-Extends_example : Extends stale (second stale)
Steps-Extends_example = Steps-Extends stale (state (second stale) (replies stale)) (given_up stale)

-- A machine whose ids are "id-1", and later "id-2".
abbrev racing : Machine
racing = record sound { uuid = λ k. if ltb k 6 then "id-1" else "id-2" }

racing-IsSound : IsSound racing handler (record empty { tick = 2 })
unfolding find_row
racing-IsSound = record { quiet = λ k. refl; fresh = refl; publisher = refl }

later-IsSound :
    IsSound racing handler
      (first_done racing handler incoming incoming body body empty racing-IsSound)
unfolding find_row
later-IsSound = record { quiet = λ k. refl; fresh = refl; publisher = refl }

both_are_admitted_example :
    (end : World) × (one : Reply) × (two : Reply) × Steps
      (state empty [])
      (state end (finished (some one) ∷ finished (some two) ∷ []))
    × (one.status ≡ 202)
    × (two.status ≡ 202)
    × ((e : Event) × (e' : Event) × (e.idempotency_key ≡ "k")
        × (e'.idempotency_key ≡ "k")
        × (end.events ≡ ([] ++ e ∷ []) ++ e' ∷ []))
both_are_admitted_example =
    both_are_admitted racing handler incoming incoming body body empty racing-IsSound later-IsSound
      body-Reaches body-Reaches refl (unfold find_key in refl)

-- A request is handled, and the worker is handed its message.
abbrev asked : Job
asked = request sound handler incoming

abbrev handed : Job
handed = message sound worker topics first_text

abbrev after_asked : World
after_asked = (run (part_of asked) empty).1

sent_one : after_asked.sent ≡ message_of sound "events" "id-1" first_text ∷ []
unfolding handle empty-IsSound encode escape before itoa int_text
sent_one =
    ap (λ (out : Option Reply × World). out.1.sent) (run-handle asked empty).0
    ∙ ap (λ (out : Reply × World). out.1.sent)
        (Reaches-handle sound handler incoming body empty body-Reaches
          ∙ accept_quiet sound handler body "t" empty empty-IsSound
              (unfold find_key unexpired in refl))

handed-IsQueued : IsQueued after_asked handed
handed-IsQueued = (message_of sound "events" "id-1" first_text, [], [], sent_one, refl)

asked_steps :
    (more : Steps
      (state empty [])
      (state after_asked (finished (run (part_of asked) empty).0 ∷ [])))
    × AreQueued more
unfolding AreQueued
asked_steps = run_queued (part_of asked) empty [] [] (next here (begins asked empty [])) (tt, tt)

abbrev handed_steps :
    Steps
      (state empty [])
      (state after_asked (finished (run (part_of asked) empty).0 ∷ part_of handed ∷ []))
handed_steps =
    next asked_steps.0 (begins handed after_asked (finished (run (part_of asked) empty).0 ∷ []))

handed_queued : AreQueued handed_steps
unfolding AreQueued
handed_queued = (asked_steps.1, handed-IsQueued)

Steps-HaveEvents_example : HaveEvents (run (part_of handed) after_asked).1
Steps-HaveEvents_example =
    Steps-HaveEvents
      (state (run (part_of handed) after_asked).1 (
        finished (run (part_of asked) empty).0
        ∷ finished (run (part_of handed) after_asked).0
        ∷ []))
      (run_queued (part_of handed) after_asked (finished (run (part_of asked) empty).0 ∷ []) []
        handed_steps handed_queued).0
      (run_queued (part_of handed) after_asked (finished (run (part_of asked) empty).0 ∷ []) []
        handed_steps handed_queued).1

-- The answer to the first insertion is lost.
losing-IsSound : IsSound racing handler empty
unfolding find_row
losing-IsSound = record { quiet = λ k. refl; fresh = refl; publisher = refl }

again-IsSound : IsSound racing handler (stored_once racing handler body "t" empty losing-IsSound)
unfolding find_row
again-IsSound = record { quiet = λ k. refl; fresh = refl; publisher = refl }

retry_stores_twice_example :
    (end : World) × (one : Reply) × (two : Reply) × Steps
      (state empty [])
      (state end (finished (some one) ∷ finished (some two) ∷ []))
    × (one.status ≡ 500)
    × (two.status ≡ 202)
    × ((e : Event) × (e' : Event) × (e.idempotency_key ≡ "k")
        × (e'.idempotency_key ≡ "k")
        × (end.events ≡ ([] ++ e ∷ []) ++ e' ∷ [])
        × ((x : Message) × (x.key ≡ e'.id) × (end.sent ≡ [] ++ x ∷ [])))
retry_stores_twice_example =
    retry_stores_twice racing handler incoming incoming body body empty losing-IsSound again-IsSound
      (external "connection reset") body-Reaches body-Reaches refl (unfold find_key in refl)
