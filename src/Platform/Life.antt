-- ===== src/Platform/Life.antt =====
-- The resources of a process, as the trace of what was opened and closed, oldest first.
-- A failing `Close` is only logged, so that a call of it counts as closing.
use event_observability_plat.Common.{
  Bool, true, false, Option, none, some, List, [], ◌∷◌, ◌++◌, if◌then◌else◌,
}

pub data Resource : Type 0 where
  tracing postgres clickhouse producer events_consumer dlq_consumer : Resource
  -- the goroutines that use the others
  http_server processor dlq_handler lag_reporter : Resource

pub data Act : Type 0 where
  opened closed : Resource → Act

abbrev pub L : Type 0 → Type 0
L A = List Act → A × List Act

infixl 5 ◌>>=◌ ◌>>◌
abbrev pub ◌>>=◌ : {A B : Type 0} → L A → (A → L B) → L B
◌>>=◌ m f t = let (a, t') = m t in f a t'

abbrev pub ◌>>◌ : {B : Type 0} → L (Unit {0}) → L B → L B
m >> n = m >>= λ _. n

abbrev pub pure : {A : Type 0} → A → L A
pure a t = (a, t)

abbrev pub act : Act → L (Unit {0})
act a t = (tt, t ++ a ∷ [])

-- `defer`: the clean-up runs when the body has returned, whatever it returned.
abbrev pub deferring : {A : Type 0} → L (Unit {0}) → L A → L A
deferring clean body = do a ← body; clean; pure a

abbrev pub same_resource : Resource → Resource → Bool
same_resource tracing tracing = true
same_resource postgres postgres = true
same_resource clickhouse clickhouse = true
same_resource producer producer = true
same_resource events_consumer events_consumer = true
same_resource dlq_consumer dlq_consumer = true
same_resource http_server http_server = true
same_resource processor processor = true
same_resource dlq_handler dlq_handler = true
same_resource lag_reporter lag_reporter = true
same_resource _ _ = false

-- The open resources without one of them; `none` where it is not open.
abbrev pub release : Resource → List Resource → Option (List Resource)
release r [] = none
release r (x ∷ rest) =
    if same_resource x r
    then some rest
    else (elim (release r rest) [ none ↦ none | some left ↦ some (x ∷ left) ])

-- What a trace leaves open; `none` where it closes something that is not open.
abbrev pub left_open : List Act → List Resource → Option (List Resource)
left_open [] open_now = some open_now
left_open (opened r ∷ acts) open_now = left_open acts (open_now ++ r ∷ [])
left_open (closed r ∷ acts) open_now = elim (release r open_now) [
  | none ↦ none
  | some rest ↦ left_open acts rest
]

abbrev pub is_goroutine : Resource → Bool
is_goroutine http_server = true
is_goroutine processor = true
is_goroutine dlq_handler = true
is_goroutine lag_reporter = true
is_goroutine _ = false

abbrev pub any_runs : List Resource → Bool
any_runs [] = false
any_runs (r ∷ rest) = if is_goroutine r then true else any_runs rest

-- Whether a trace closes a connection while a goroutine still runs.
abbrev pub closes_in_use : List Act → List Resource → Bool
closes_in_use [] open_now = false
closes_in_use (opened r ∷ acts) open_now = closes_in_use acts (open_now ++ r ∷ [])
closes_in_use (closed r ∷ acts) open_now =
    let rest : List Resource = elim (release r open_now) [ none ↦ open_now | some left ↦ left ] in
    let later = closes_in_use acts rest in
    if is_goroutine r then later else if any_runs open_now then true else later
