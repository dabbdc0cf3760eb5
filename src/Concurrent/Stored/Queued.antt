-- ===== src/Concurrent/Stored/Queued.antt =====
-- Whatever interleaves, the queue holds messages about stored events alone.
use event_observability_plat.Common.{
  ◌≡◌, ap, sym, ◌∙◌, none, some, List, [], ◌∷◌, ◌++◌, All, All-split, All-join,
}
use event_observability_plat.Mapper.{decode}
use event_observability_plat.Mapper.Bounds.{decode_of_unmarshal}
use event_observability_plat.Runtime.{World, Message}
use event_observability_plat.System.{empty}
use event_observability_plat.Concurrent.{doing, writing, finished, run}
use event_observability_plat.Concurrent.Steps.{
  Job, request, message, poison, Part, part_of, State, state, begins, calls, writes, unheard, stops,
  Steps, here, next,
}
use event_observability_plat.Concurrent.Stored.{
  StaysStored, HasEvent, HaveEvents, IsSafeFrom, IsSafeFrom-later, Anything, then-IsSafeFrom,
  finished-IsSafeFrom,
}
use event_observability_plat.Concurrent.Stored.Requests.{request-IsSafeFrom}
use event_observability_plat.Concurrent.Stored.Messages.{message-IsSafeFrom, poison-IsSafeFrom}

-- A message that the worker is handed stands in the queue.
abbrev pub IsQueued : World → Job → Type 0
IsQueued w (request m h r) = Unit
IsQueued w (poison m d) = Unit
IsQueued w (message m uc topics value) =
    (x : Message) × (before : List Message) × (after : List Message) × (w.sent
      ≡ before ++ x ∷ after)
    × (value ≡ x.value)

-- Every message that began was queued.
unfoldable pub AreQueued : {s t : State} → Steps s t → Type 0
AreQueued here = Unit
AreQueued (next earlier (begins job w parts)) = AreQueued earlier × IsQueued w job
AreQueued (next earlier (calls c k w before after)) = AreQueued earlier
AreQueued (next earlier (writes c c' k w before after)) = AreQueued earlier
AreQueued (next earlier (unheard c c' k e w before after)) = AreQueued earlier
AreQueued (next earlier (stops part w before after)) = AreQueued earlier

part_of-IsSafeFrom :
    (job : Job) (w : World) → HaveEvents w → IsQueued w job → IsSafeFrom Anything w (part_of job)
unfolding part_of
part_of-IsSafeFrom (request m h r) w have queued =
    then-IsSafeFrom Anything _ _ w (request-IsSafeFrom m h r w)
      (λ w' reply stays. finished-IsSafeFrom (some reply) w')
part_of-IsSafeFrom (poison m d) w have queued =
    then-IsSafeFrom Anything _ _ w (poison-IsSafeFrom m d w)
      (λ w' a stays. finished-IsSafeFrom none w')
part_of-IsSafeFrom (message m uc topics value) w have (x, before, after, there, same) =
    let (a, stored, b) = All-split (HasEvent w) before x after (rw there at have) in
    then-IsSafeFrom Anything _ _ w
      (message-IsSafeFrom m uc topics value w (λ msg parsed.
        let id =
          stored.1 msg (ap decode (sym same) ∙ decode_of_unmarshal m.json_error value msg parsed) in
        rw id stored.0))
      (λ w' a stays. finished-IsSafeFrom none w')

later-All :
    (parts : List Part) (w w' : World)
    → StaysStored w w'
    → All (IsSafeFrom Anything w) parts
    → All (IsSafeFrom Anything w') parts
later-All [] w w' r h = tt
later-All (p ∷ parts) w w' r h =
    (IsSafeFrom-later Anything p w w' (λ a x. tt) r h.0, later-All parts w w' r h.1)

Steps-Promise :
    {s t : State} (steps : Steps s t)
    → AreQueued steps
    → HaveEvents s.world × All (IsSafeFrom Anything s.world) s.parts
    → HaveEvents t.world × All (IsSafeFrom Anything t.world) t.parts
unfolding AreQueued IsSafeFrom
Steps-Promise here q h = h
Steps-Promise (next earlier (begins job w parts)) q h =
    let (have, safe) = Steps-Promise earlier q.0 h in
    (
      have,
      All-join (IsSafeFrom Anything w) parts (part_of job ∷ []) safe
          (part_of-IsSafeFrom job w have q.1, tt),
    )
Steps-Promise (next earlier (calls c k w before after)) q h =
    let (have, safe) = Steps-Promise earlier q h in
    let (a, b, d) = All-split (IsSafeFrom Anything w) before (doing c k) after safe in
    let (kept, stays, rest) = b w (λ id x. x) have in
    let w' = (c w).1 in
    (
      kept,
      All-join (IsSafeFrom Anything w') before (k (c w).0 ∷ after) (later-All before w w' stays a)
          (rest, later-All after w w' stays d),
    )
Steps-Promise (next earlier (writes c c' k w before after)) q h =
    let (have, safe) = Steps-Promise earlier q h in
    let (a, b, d) = All-split (IsSafeFrom Anything w) before (writing c c' k) after safe in
    let (kept, stays, rest) = (b w (λ id x. x) have).0 in
    let w' = (c w).1 in
    (
      kept,
      All-join (IsSafeFrom Anything w') before (k (c w).0 ∷ after) (later-All before w w' stays a)
          (rest, later-All after w w' stays d),
    )
Steps-Promise (next earlier (unheard c c' k e w before after)) q h =
    let (have, safe) = Steps-Promise earlier q h in
    let (a, b, d) = All-split (IsSafeFrom Anything w) before (writing c c' k) after safe in
    let (kept, stays, rest) = (b w (λ id x. x) have).1 e in
    let w' = (c' w).1 in
    (
      kept,
      All-join (IsSafeFrom Anything w') before (k (some e) ∷ after) (later-All before w w' stays a)
          (rest, later-All after w w' stays d),
    )
Steps-Promise (next earlier (stops part w before after)) q h =
    let (have, safe) = Steps-Promise earlier q h in
    let (a, b, d) = All-split (IsSafeFrom Anything w) before part after safe in
    (have, All-join (IsSafeFrom Anything w) before after a d)

-- From empty tables, however the calls of requests, messages and dead letters interleave, whatever fails in
-- them, with its effect or without it, and wherever a process ends: every message in the queue names a stored
-- event, by its key and by no other id in its value. So no message is ahead of its row, not even at a crash.
-- The messages that the worker is handed are from the queue.
pub Steps-HaveEvents :
    (s : State) (steps : Steps (state empty []) s) → AreQueued steps → HaveEvents s.world
Steps-HaveEvents s steps queued = (Steps-Promise steps queued (tt, tt)).0

-- A part can be run to its end.
pub run_queued :
    {s : State} (p : Part) (w : World) (before after : List Part)
    (steps : Steps s (state w (before ++ p ∷ after)))
    → AreQueued steps
    → (more : Steps s (state (run p w).1 (before ++ finished (run p w).0 ∷ after))) × AreQueued more
unfolding run AreQueued
run_queued (finished a) w before after steps q = (steps, q)
run_queued (doing c k) w before after steps q =
    run_queued (k (c w).0) (c w).1 before after (next steps (calls c k w before after)) q
run_queued (writing c c' k) w before after steps q =
    run_queued (k (c w).0) (c w).1 before after (next steps (writes c c' k w before after)) q
