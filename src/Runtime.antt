-- ===== src/Runtime.antt =====
-- The state that the server and the worker share, and the actions on it.
-- PostgreSQL, ClickHouse and Kafka are tables and logs; every call of one of them takes a tick, and
-- `fault` says at which ticks a call fails, with no effect, and with what text. A refusal by a
-- constraint of the schema on a value (the length of a text, the syntax of a UUID) is such a fault.
pub mod Keeps
use event_observability_plat.Common.{ℕ, ◌+◌, String, Option, none, some, List, ◌∷◌, [], ◌++◌, ℤ}
use event_observability_plat.Errors.{Err, external, Result}
use event_observability_plat.Domain.{Event, EventMessage, Entry}

-- A row of the ClickHouse table events_log.
pub record LogRow : Type 0 where
  pub event_id : String
  pub source : String
  pub event_type : String
  pub status : String
  pub processed_at : ℤ
  pub date : ℤ

-- A Kafka message, `kafka.Message`.
pub record Message : Type 0 where
  pub topic : String
  pub key : String
  pub value : String
  pub headers : List (String × String)

-- An increment of a Prometheus counter of internal/platform/metrics, with its labels.
pub data Count : Type 0 where
  events_processed : String → String → Count
  events_failed : String → String → Count
  events_duplicate : Count
  http_requests : String → String → String → Count

pub record World : Type 0 where
  pub tick : ℕ
  pub events : List Event  -- webhook_events
  pub keys : List (String × Entry)  -- idempotency_keys
  pub log : List LogRow  -- the rows inserted into events_log
  pub sent : List Message  -- what the brokers have accepted, oldest first
  pub counts : List Count

-- What the program takes from outside: which calls fail, the clock at a tick, `uuid.NewString()` at a tick, the
-- text of the error that encoding/json gives for a text that it does not decode, and the headers that the trace
-- propagator injects.
pub record Machine : Type 0 where
  pub fault : ℕ → Option String
  pub clock : ℕ → ℤ
  pub uuid : ℕ → String
  pub json_error : String → String
  pub propagated : List (String × String)

abbrev pub M : Type 0 → Type 0
M A = World → A × World

infixl 5 ◌>>=◌ ◌>>◌
abbrev pub ◌>>=◌ : {A B : Type 0} → M A → (A → M B) → M B
◌>>=◌ m f w = let (a, w') = m w in f a w'

abbrev pub ◌>>◌ : {B : Type 0} → M (Unit {0}) → M B → M B
m >> n = m >>= λ _. n

abbrev pub pure : {A : Type 0} → A → M A
pure a w = (a, w)

abbrev pub gets : {A : Type 0} → (World → A) → M A
gets f w = (f w, w)

abbrev pub modify : (World → World) → M (Unit {0})
modify f w = (tt, f w)

abbrev pub tick : World → World
tick w = record w { tick = w.tick + 1 }

module _ (m : Machine) where
  -- One call of a service: `some` error, or `none`.
  unfoldable pub call : M (Option Err)
  call w = (elim (m.fault w.tick) [ none ↦ none | some e ↦ some (external e) ], tick w)

  -- `time.Now()`
  unfoldable pub now : M ℤ
  now w = (m.clock w.tick, tick w)

  -- `uuid.NewString()`
  unfoldable pub new_uuid : M String
  new_uuid w = (m.uuid w.tick, tick w)

abbrev pub count : Count → M (Unit {0})
count c = modify (λ w. record w { counts = w.counts ++ c ∷ [] })
