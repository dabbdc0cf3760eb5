-- ===== src/Messaging/Invariant.antt =====
-- A publication leaves the tables alone.
use event_observability_plat.Common.{String, Option, none, some}
use event_observability_plat.Errors.{Err}
use event_observability_plat.Runtime.{Machine, Message}
use event_observability_plat.Runtime.Keeps.{Keeps, keeps_rules}
use event_observability_plat.Storage.Events.Invariant.{IsWellFormed, call-IsWellFormed}
use event_observability_plat.Messaging.{publish, publish_answer}

publish_answer-IsWellFormed :
    (msg : Message) (fault : Option Err) → Keeps IsWellFormed (publish_answer msg fault)
unfolding publish_answer
publish_answer-IsWellFormed msg (some x) = record { at = λ w h. h }
publish_answer-IsWellFormed msg none = record {
  at = λ w h. record { stamped = h.stamped; distinct = h.distinct; refers = h.refers };
}

pub publish-Keeps :
    (m : Machine) (topic key value : String) → Keeps IsWellFormed (publish m topic key value)
unfolding publish
publish-Keeps m topic key value =
    search (keeps_rules, call-IsWellFormed, publish_answer-IsWellFormed)
