-- ===== src/Service/Balance/Worker.antt =====
-- What the worker has closed when it returns.
use event_observability_plat.Common.{
  ◌≡◌, ◌⊎◌, String, Bool, true, false, not, ◌&&◌, none, some, List, [], ◌∷◌, ◌++◌, if◌then◌else◌,
  Option, ◌^^◌,
}
use event_observability_plat.Errors.{Err, ok, err}
use event_observability_plat.Config.{Config}
use event_observability_plat.Messaging.Consumer.{new_consumer}
use event_observability_plat.Platform.Life.{
  Act, Resource, postgres, clickhouse, producer, processor, dlq_handler, lag_reporter,
  closes_in_use,
}
use event_observability_plat.Platform.Stores.{new_postgres}
use event_observability_plat.Service.{Outside, Ending, returned, panicked, infra_with_tracing, work}
use event_observability_plat.Service.Balance.{Leaves, traced, traced_acts}

-- The goroutines that still run when the worker returns.
abbrev pub running : (loops_end lag_ends : Bool) → List Resource
running loops_end lag_ends =
    (if loops_end then [] else processor ∷ dlq_handler ∷ [])
    ++ (if lag_ends then [] else lag_reporter ∷ [])

-- What `initInfra` has opened.
abbrev pub infra_of : Bool → List Resource
infra_of traces = traced traces ++ postgres ∷ clickhouse ∷ producer ∷ []

module _ (o : Outside) (cfg : Config) where
  -- The texts with which the two consumers panic.
  abbrev first_panic : Option String
  first_panic =
      new_consumer o.new_reader cfg.kafka.brokers cfg.kafka.topic_events cfg.kafka.consumer_group

  abbrev second_panic : Option String
  second_panic =
      new_consumer o.new_reader cfg.kafka.brokers cfg.kafka.topic_dlq
        (cfg.kafka.consumer_group ^^ "-dlq")

-- What a worker leaves open.
abbrev worker_left : Outside → Config → Bool → List Resource
worker_left o cfg traces = elim (new_postgres o.drivers cfg.postgres []).0 [
  | some e ↦ []
  | none ↦ elim (o.drivers.open_clickhouse cfg.click_house) [
    | some e ↦ []
    | none ↦ elim (o.drivers.ping_clickhouse cfg.click_house) [
      | some e ↦ clickhouse ∷ []
      | none ↦ elim (first_panic o cfg) [
        | some p ↦ infra_of traces
        | none ↦ elim (second_panic o cfg) [
          | some p ↦ infra_of traces
          | none ↦ running o.loops_end o.lag_ends
        ]
      ]
    ]
  ]
]

-- How a run of the worker ends, by whether its loops and `reportLag` have ended in time: it closes nothing that is not
-- open. Without an error it leaves open what has not ended, and then has closed what this uses; with an error at
-- most a ClickHouse connection that did not answer; and where it panics, all that `initInfra` has opened.
pub record WorkerEnds (loops_end lag_ends : Bool) (out : Ending × List Act) : Type 0 where
  pub left : List Resource
  pub leaves : Leaves out.1 left
  pub safe : out.0 ≡ returned (ok tt) → closes_in_use out.1 [] ≡ not (loops_end && lag_ends)
  pub clean : out.0 ≡ returned (ok tt) → left ≡ running loops_end lag_ends
  pub few : (e : Err) → out.0 ≡ returned (err e) → (left ≡ []) ⊎ (left ≡ clickhouse ∷ [])
  pub lost :
      (p : String)
      → out.0 ≡ panicked p
      → (closes_in_use out.1 [] ≡ false) × ((left ≡ infra_of false) ⊎ (left ≡ infra_of true))

module _ (o : Outside) (cfg : Config) where
  worker_from : Bool → Ending × List Act
  worker_from traces =
      let (infra, acts) = infra_with_tracing o cfg (ok traces) (traced_acts traces) in
      work o infra acts
