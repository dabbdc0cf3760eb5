-- ===== src/Ingest/Effects.antt =====
-- The use case of ingestion keeps the tables well formed.
use event_observability_plat.Common.{refl, String, Option, none, some}
use event_observability_plat.Errors.{Err, Result, ok, err}
use event_observability_plat.Runtime.{Machine, new_uuid}
use event_observability_plat.Runtime.Keeps.{Keeps, keeps_rules}
use event_observability_plat.Storage.Events.Invariant.{
  IsWellFormed, Keeps-same, now-IsWellFormed, insert-Keeps,
}
use event_observability_plat.Messaging.Invariant.{publish-Keeps}
use event_observability_plat.Ingest.{
  IngestEvent, IngestEventInput, dispatch, dispatch_value, after_insert, execute,
}

module _ (m : Machine) where
  pub new_uuid-IsWellFormed : Keeps IsWellFormed (new_uuid m)
  unfolding new_uuid
  new_uuid-IsWellFormed = Keeps-same (new_uuid m) (λ w. refl) (λ w. refl)

module _ (m : Machine) (uc : IngestEvent) where
  dispatch_value-Keeps :
      (id : String) (v : Result String) → Keeps IsWellFormed (dispatch_value m uc id v)
  unfolding dispatch_value
  dispatch_value-Keeps id (ok v) = search (keeps_rules, publish-Keeps)
  dispatch_value-Keeps id (err e) = search keeps_rules

  dispatch-Keeps : (id : String) → Keeps IsWellFormed (dispatch m uc id)
  unfolding dispatch
  dispatch-Keeps id = search (keeps_rules, dispatch_value-Keeps)

  after_insert-Keeps :
      (id : String) (failure : Option Err) → Keeps IsWellFormed (after_insert m uc id failure)
  unfolding after_insert
  after_insert-Keeps id none = search (keeps_rules, dispatch-Keeps)
  after_insert-Keeps id (some e) = search keeps_rules

  pub execute-Keeps : (input : IngestEventInput) → Keeps IsWellFormed (execute m uc input)
  unfolding execute
  execute-Keeps input =
      search
        (keeps_rules, new_uuid-IsWellFormed, now-IsWellFormed, insert-Keeps, after_insert-Keeps)
