-- ===== src/Messaging.antt =====
-- internal/infra/messaging: the header carrier and the producer.
pub mod Carrier
pub mod Consumer
pub mod Invariant
use event_observability_plat.Common.{String, Option, none, some, List, [], ◌∷◌, ◌++◌, ◌^^◌}
use event_observability_plat.Errors.{Err, wrapped}
use event_observability_plat.Runtime.{World, Machine, M, ◌>>=◌, call, Message}
use event_observability_plat.Messaging.Carrier.{Header, inject}

abbrev write_message : Message → World → World
write_message msg w = record w { sent = w.sent ++ msg ∷ [] }

unfoldable pub publish_answer : Message → Option Err → M (Option Err)
publish_answer msg (some x) w = (some (wrapped ("kafka publish to " ^^ msg.topic) x), w)
publish_answer msg none w = (none, write_message msg w)

-- `Producer.Publish`: the trace headers go into an empty carrier, and one message is written. The
-- time stamp of the message is left out.
unfoldable pub publish : Machine → String → String → String → M (Option Err)
publish m topic key value = do
  fault ← call m
  publish_answer
      (record { topic = topic; key = key; value = value; headers = inject m.propagated [] }) fault
