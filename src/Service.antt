-- ===== src/Service.antt =====
-- internal/app/service: start-up and shutdown of the server (server.go) and of the worker
-- (worker.go, infra.go), and the exit codes of cmd/server and cmd/worker.
pub mod Balance
pub mod Wiring
pub mod EndToEnd
use event_observability_plat.Common.{
  ℕ, String, Bool, Option, none, some, List, [], ◌∷◌, ◌++◌, if◌then◌else◌, ◌^^◌,
}
use event_observability_plat.Errors.{Err, external, wrapped, Result, ok, err}
use event_observability_plat.Config.{Config, Environ, load, OtelConfig}
use event_observability_plat.Messaging.Consumer.{ReaderConfig, new_consumer}
use event_observability_plat.Platform.Life.{
  L, ◌>>=◌, ◌>>◌, pure, act, deferring, Act, opened, closed, Resource, postgres, clickhouse,
  producer, events_consumer, dlq_consumer, http_server, processor, dlq_handler, lag_reporter,
}
use event_observability_plat.Platform.Tracing.{TracingConfig, Telemetry, init, shutdown}
use event_observability_plat.Platform.Stores.{Drivers, new_postgres, new_clickhouse}

-- What a process meets: its environment, what the libraries answer, the text with which
-- `kafka.NewReader` panics on a configuration, if it does, the error with which `ListenAndServe` ends
-- before the context does, if it does, and what still runs when `RunServer` or `RunWorker` goes on:
-- whether all handlers have ended when `ListenAndServe` has failed or `Shutdown` has returned, which it
-- does after thirty seconds at the latest; whether both loops of the worker have ended thirty seconds
-- after the context; and whether `reportLag`, which is not waited for, has ended by then.
pub record Outside : Type 0 where
  pub environ : Environ
  pub telemetry : Telemetry
  pub drivers : Drivers
  pub new_reader : ReaderConfig → Option String
  pub listen_error : Option String
  pub handlers_end : Bool
  pub loops_end : Bool
  pub lag_ends : Bool

abbrev pub Outcome : Type 0
Outcome = Result (Unit {0})

abbrev pub fail {ℓ} : {A : Type ℓ} → String → Err → Result A
fail what e = err (wrapped what e)

abbrev pub tracing_config : OtelConfig → String → TracingConfig
tracing_config cfg suffix = record {
  enabled = cfg.enabled;
  service_name = cfg.service_name ^^ suffix;
  exporter_type = cfg.exporter_type;
  endpoint = cfg.endpoint;
}

-- `RunServer`, from its end to its beginning.
module _ (o : Outside) (cfg : Config) where
  -- The listener and the handlers of its connections, from their start to the point where they are given
  -- up: an error of `Shutdown` is only logged, and handlers that still run then go on.
  unfoldable pub listen : L (Unit {0})
  listen = do
    act (opened http_server)
    (if o.handlers_end then act (closed http_server) else pure tt)

  -- From the start of the listener on; `traces` is the shutdown function of the tracing.
  unfoldable pub serve : Bool → L Outcome
  unfolding listen
  serve traces = do
    listen
    (elim o.listen_error [
      | some e ↦ pure (fail "http error" (external e))
      | none ↦ do shutdown traces; pure (ok tt)
    ])

  unfoldable pub serve_with_clickhouse : Bool → Option Err → L Outcome
  unfolding serve
  serve_with_clickhouse traces (some e) = pure (fail "connect clickhouse" e)
  serve_with_clickhouse traces none = deferring (act (closed clickhouse)) (serve traces)

  unfoldable pub serve_with_postgres : Bool → Option Err → L Outcome
  unfolding serve_with_clickhouse
  serve_with_postgres traces (some e) = pure (fail "connect postgres" e)
  serve_with_postgres traces none = deferring (act (closed postgres)) (do
    act (opened producer)
    deferring (act (closed producer))
        (do fault ← new_clickhouse o.drivers cfg.click_house; serve_with_clickhouse traces fault))

  unfoldable pub serve_with_tracing : Result Bool → L Outcome
  unfolding serve_with_postgres
  serve_with_tracing (err e) = pure (fail "init tracing" e)
  serve_with_tracing (ok traces) = do
    fault ← new_postgres o.drivers cfg.postgres
    serve_with_postgres traces fault

-- `RunServer`
unfoldable pub run_server : Outside → L Outcome
unfolding serve_with_tracing
run_server o = elim (load o.environ) [
  | err e ↦ pure (fail "load config" e)
  | ok cfg ↦ do
    traces ← init o.telemetry (tracing_config cfg.otel "")
    serve_with_tracing o cfg traces
]

-- The Infra that `initInfra` makes: the configuration, and the shutdown function of the tracing.
pub record Infra : Type 0 where
  pub cfg : Config
  pub traces : Bool

module _ (o : Outside) (cfg : Config) where
  unfoldable pub infra_with_clickhouse : Bool → Option Err → L (Result Infra)
  infra_with_clickhouse traces (some e) = do
    act (closed postgres)
    shutdown traces
    pure (fail "connect clickhouse" e)
  infra_with_clickhouse traces none = do
    act (opened producer)
    pure (ok (record { cfg = cfg; traces = traces }))

  unfoldable pub infra_with_postgres : Bool → Option Err → L (Result Infra)
  unfolding infra_with_clickhouse
  infra_with_postgres traces (some e) = do shutdown traces; pure (fail "connect postgres" e)
  infra_with_postgres traces none = do
    fault ← new_clickhouse o.drivers cfg.click_house
    infra_with_clickhouse traces fault

  unfoldable pub infra_with_tracing : Result Bool → L (Result Infra)
  unfolding infra_with_postgres
  infra_with_tracing (err e) = pure (fail "init tracing" e)
  infra_with_tracing (ok traces) = do
    fault ← new_postgres o.drivers cfg.postgres
    infra_with_postgres traces fault

-- `initInfra`
unfoldable pub init_infra : Outside → String → L (Result Infra)
unfolding infra_with_tracing
init_infra o suffix = elim (load o.environ) [
  | err e ↦ pure (fail "load config" e)
  | ok cfg ↦ do
    traces ← init o.telemetry (tracing_config cfg.otel suffix)
    infra_with_tracing o cfg traces
]

-- `Infra.Shutdown`
unfoldable pub shutdown_infra : Infra → L (Unit {0})
shutdown_infra infra = do
  act (closed producer)
  act (closed clickhouse)
  act (closed postgres)
  shutdown infra.traces

-- The two loops, and the `reportLag` that the first of them starts, run until the context ends; the loops are
-- waited for, thirty seconds at most.
unfoldable pub run_loops : Outside → L (Unit {0})
run_loops o = do
  act (opened processor)
  act (opened dlq_handler)
  act (opened lag_reporter)
  (if o.loops_end then (do act (closed processor); act (closed dlq_handler)) else pure tt)
  (if o.lag_ends then act (closed lag_reporter) else pure tt)

-- How `RunWorker` ends: it returns, or it panics once its deferred calls have run.
pub data Ending : Type 0 where
  returned : Outcome → Ending
  panicked : String → Ending

-- From the second consumer on.
unfoldable pub work_on : Outside → Infra → Option String → L Ending
unfolding run_loops shutdown_infra
work_on o infra (some p) = pure (panicked p)
work_on o infra none = do
  act (opened dlq_consumer)
  deferring (act (closed dlq_consumer))
      (do run_loops o; shutdown_infra infra; pure (returned (ok tt)))

-- From the first consumer on.
unfoldable pub work_with : Outside → Infra → Option String → L Ending
unfolding work_on
work_with o infra (some p) = pure (panicked p)
work_with o infra none = do
  act (opened events_consumer)
  deferring (act (closed events_consumer)) (
      work_on o infra (
        new_consumer o.new_reader infra.cfg.kafka.brokers infra.cfg.kafka.topic_dlq
          (infra.cfg.kafka.consumer_group ^^ "-dlq")))

-- What follows `initInfra` in `RunWorker`.
unfoldable pub work : Outside → Result Infra → L Ending
unfolding work_with
work o (err e) = pure (returned (err e))
work o (ok infra) = work_with o infra (
    new_consumer o.new_reader infra.cfg.kafka.brokers infra.cfg.kafka.topic_events
      infra.cfg.kafka.consumer_group)

-- `RunWorker`
unfoldable pub run_worker : Outside → L Ending
unfolding work
run_worker o = do infra ← init_infra o "-worker"; work o infra

-- The exit code of `main` in cmd/server and in cmd/worker, where `RunServer` or `RunWorker` returns.
unfoldable pub exit_code : Outcome → ℕ
exit_code (ok done) = 0
exit_code (err e) = 1
