-- ===== src/Worker.antt =====
-- internal/app/processor: the consumers of the events topic (processor.go) and of the dead letter
-- queue (dlq.go). A run reads what the broker and the context do from a list of fetches; spans, log
-- lines and the sleep after a failed fetch are left out.
pub mod Invariant
pub mod Retries
pub mod Queue
pub mod Lag
use event_observability_plat.Common.{
  String, Bool, true, false, not, ◌&&◌, str_eq, Option, none, some, List, [], ◌∷◌, ◌++◌,
  if◌then◌else◌, ℤ, pos, ◌+ℤ◌,
}
use event_observability_plat.Errors.{Err, external, context_done, Result, ok, err}
use event_observability_plat.Domain.{EventMessage, failed}
use event_observability_plat.Mapper.{marshal_event_message, unmarshal_event_message}
use event_observability_plat.Runtime.{
  World, Machine, M, ◌>>=◌, ◌>>◌, pure, count, events_processed, events_failed,
}
use event_observability_plat.Storage.Events.{update_status}
use event_observability_plat.Messaging.{publish}
use event_observability_plat.Process.{
  ProcessEvent, Verdict, ProcessAction, done, retry, dlq, execute,
}

pub record Topics : Type 0 where
  pub events : String
  pub dlq : String

-- A message as it was fetched: its value, and where it stands in its partition.
pub record Delivery : Type 0 where
  pub value : String
  pub offset : ℤ

-- One round of a consumer's loop as the broker and the context decide it. `stopped` is `ctx.Err()`
-- where the context has ended.
pub data Fetch : Type 0 where
  fetch_failed : Option String → Fetch
  fetched : Delivery → (commit_fails : Bool) → (stopped : Option String) → Fetch

module _ (m : Machine) (topics : Topics) where
  unfoldable pub publish_value : String → String → Result String → M (Unit {0})
  publish_value topic key (err e) = pure tt
  publish_value topic key (ok value) = do lost ← publish m topic key value; pure tt

  -- `publishRetry`
  unfoldable pub publish_retry : EventMessage → M (Unit {0})
  unfolding publish_value
  publish_retry msg =
      publish_value topics.events msg.event_id
        (marshal_event_message (record { event_id = msg.event_id; attempt = msg.attempt +ℤ pos 1 }))

  -- `publishToDLQ`
  unfoldable pub publish_to_dlq : EventMessage → M (Unit {0})
  unfolding publish_value
  publish_to_dlq msg = publish_value topics.dlq msg.event_id (marshal_event_message msg)

  unfoldable pub count_done : String → Option Err → M (Unit {0})
  count_done source (some e) = pure tt
  count_done source none =
      if not (str_eq source "") then count (events_processed source "processed") else pure tt

  -- The `switch` on the result.
  unfoldable pub route : ProcessAction → EventMessage → Verdict → M (Unit {0})
  unfolding count_done
  route done msg v = count_done v.event_source v.error
  route retry msg v = publish_retry msg
  route dlq msg v = do publish_to_dlq msg; count (events_failed "unknown" "max_retries_exceeded")

module _ (m : Machine) (uc : ProcessEvent) (topics : Topics) where
  unfoldable pub process_decoded : Result EventMessage → M (Unit {0})
  process_decoded (err e) = pure tt
  process_decoded (ok msg) = do v ← execute m uc msg; route m topics v.action msg v

  -- `processMessage`
  unfoldable pub process_message : String → M (Unit {0})
  process_message value = process_decoded (unmarshal_event_message m.json_error value)

-- What a run has done: the messages handed to CommitMessages, oldest first, and the error with
-- which it returned, if it did.
pub record Run : Type 0 where
  pub committed : List Delivery
  pub stopped : Option String

-- The loop of `Processor.Run` and of `DLQHandler.Run` over the body `handle`. `strict` says of a
-- message whether a failed commit is looked at.
module _ (handle : Delivery → M (Unit {0})) (strict : Delivery → Bool) where
  unfoldable pub consume : List Fetch → M Run
  consume [] w = (record { committed = []; stopped = none }, w)
  consume (fetch_failed (some e) ∷ rest) w = (record { committed = []; stopped = some e }, w)
  consume (fetch_failed none ∷ rest) w = consume rest w
  consume (fetched d fails stopped ∷ rest) w =
      let w' = (handle d w).1 in
      let more = consume rest w' in
      let go_on : Run × World =
        (record { committed = d ∷ more.0.committed; stopped = more.0.stopped }, more.1) in
      if fails && strict d
      then (elim stopped [
        | some e ↦ (record { committed = d ∷ []; stopped = some e }, w')
        | none ↦ go_on
      ])
      else go_on

abbrev always : Delivery → Bool
always d = true

-- `Processor.Run`
unfoldable pub run_processor : Machine → ProcessEvent → Topics → List Fetch → M Run
run_processor m uc topics = consume (λ d. process_message m uc topics d.value) always

module _ (m : Machine) where
  unfoldable pub handle_parsed : Result EventMessage → M (Unit {0})
  handle_parsed (err e) = pure tt
  handle_parsed (ok msg) = do lost ← update_status m msg.event_id failed; pure tt

  -- The body of `DLQHandler.Run` for one message, up to its commit.
  unfoldable pub handle_poison : Delivery → M (Unit {0})
  unfolding handle_parsed
  handle_poison d = handle_parsed (unmarshal_event_message m.json_error d.value)

  is_ok : Result EventMessage → Bool
  is_ok (ok msg) = true
  is_ok (err e) = false

  parses : Delivery → Bool
  unfolding is_ok
  parses d = is_ok (unmarshal_event_message m.json_error d.value)

  -- `DLQHandler.Run`; the commit of a message that does not parse is not looked at.
  unfoldable pub run_dlq : List Fetch → M Run
  unfolding parses
  run_dlq = consume handle_poison parses
