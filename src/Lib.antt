-- ===== src/Lib.antt =====
-- Verification library of the event observability platform: an HTTP server that takes webhook
-- events, stores them in PostgreSQL and queues them in Kafka, and a worker that processes the queue,
-- writes to ClickHouse, and retries or gives up what fails; and an outbound HTTP client with a
-- circuit breaker.
--
-- The parts and their files:
--   Common      shared names; ℤ stands for Go's `int`, `time.Duration` and instants (nanoseconds
--               from the epoch), over the native numbers; text functions of the Go library
--   Errors      error values: sentinels, errors of libraries, and the wrapping of `fmt.Errorf`
--   Domain      internal/core/domain, internal/core/dto, internal/core/service: event, message, entry, TTL
--   Json        `encoding/json`: the text of a string (Text), the tokens of a text (Tokens), where
--               a value ends (Values), the members of an object and the fields of a struct (Fields)
--   Mapper      internal/core/mapper/event_message.go: an EventMessage as JSON, and back
--   Runtime     the state that server and worker share (`World`), what is outside (`Machine`), and
--               the state monad `M`; `Runtime.Keeps` is preservation of an invariant
--   Storage     Events and Idempotency for internal/infra/storage/postgres, Memory for
--               internal/infra/storage/memory, Analytics and Querier for event_writer.go and
--               event_querier.go of internal/infra/storage/clickhouse
--   Messaging   internal/infra/messaging: `Producer.Publish`, the header carrier and `NewConsumer`
--   Ingest      internal/core/usecase/ingest_event.go: `IngestEvent.Execute` is `execute`
--   Process     internal/core/usecase/process_event.go: `Execute` is `execute`, `handleFailure` is
--               `handle_failure`; `after_find`, `after_mark` are the code behind the calls they name
--   Worker      internal/app/processor: `processMessage` is `process_message`, the loop of both `Run`
--               methods is `consume`; Queue is the events topic as its consumer reads it
--   Http        internal/app/http: replies; Webhook for handler/webhook.go (`HandleEvent` is
--               `handle_event`), Analytics and Dates for handler/analytics.go, Health for handler/health.go,
--               Middleware for middleware/middleware.go, internal/platform/logger and the chain of http.go,
--               Server for the routes of http.go, Whole for the two together
--   Config      internal/config.go: `Load` is `load`
--   Platform    Life for what a process opens and closes; Tracing, Metrics and Logging for
--               internal/platform; Stores for postgres.go and clickhouse.go of internal/infra/storage
--   Service     internal/app/service: `RunServer` is `run_server`, `RunWorker` is `run_worker`,
--               `initInfra` is `init_infra`; Balance says what they leave open, Wiring is what they build from
--               the configuration, and EndToEnd follows an event through both
--   Migrate     internal/app/migrate: `Run` is `run_migrate`, `OpenDB` is `open_db_for`
--   System      any sequence of requests, messages and dead letters over one `World`; Delivered
--               follows one event from its request to the end of its processing
--   Concurrent  the handlers cut at their calls (Requests, Messages), any interleaving of them with the
--               end of a process at any point (Steps), invariants of these (Safety, Parts, WellFormed,
--               Growth, Stored), how they relate to the handlers (Alone), two requests with one key (Race), a lost answer (Lost)
--   Breaker     internal/infra/outbound/httpclient/breaker.go
--   Retry       internal/infra/outbound/httpclient/retry.go
--   Client      internal/infra/outbound/httpclient/client.go: `Do` is `perform`, its loop is `loop`
--   Notifier    internal/infra/outbound/notifier: `Notify` is `notify`
--   Tests       runs and applications of the theorems at concrete inputs
--
-- How it is modelled. Server and worker meet in the tables and in the queue alone, so that both are
-- functions from a `World` to a result and a `World`. Every call of PostgreSQL, ClickHouse, Kafka,
-- the clock or the generator of ids takes a tick, and `Machine` says for each tick whether the call
-- fails and what the clock and the generator give; a theorem that quantifies over machines
-- quantifies over every pattern of failures. A SQL statement is a function on a list of rows, and
-- is atomic; a failed call has no effect, but in Concurrent, where a write can also have taken place
-- though its answer is an error. The theorems on System run requests and messages one after another;
-- those on Concurrent interleave them at the level of single calls. `encoding/json`
-- is modelled as far as these texts need it (Json): its scanner on the level of tokens, with the limit
-- of nesting, the quoting of strings, and the decoding into fields of a struct; the text of its errors,
-- the trace propagator and what a JSONB column gives back, `os.Getenv`, `time.ParseDuration`,
-- goose, the drivers and the OpenTelemetry SDK are parameters. The breaker's and
-- the memory store's methods hold a lock, so a concurrent history is a sequence of calls. In the
-- client, what the network, the context and the clock do in attempt k is a function of k. Start-up
-- and shutdown are functions from what the libraries answer, the panic of `kafka.NewReader` and the
-- goroutines that outlive their wait included, to the trace of what was opened and closed.
--
-- Bounds and fuel. The loop of `Do` is structural on the retries that are left; `work_off` follows
-- the topic over a given number of rounds, and a theorem says how many suffice. Counters are
-- natural numbers without wrap-around: none can come near 2 ^ 63 in the life of a process. The
-- conversion of float64 to int64 in `backoff` is a parameter, since Go leaves its result to the
-- machine past the range.
--
-- Not modelled: log lines (but for those of the middleware), spans, the latency histograms, the
-- text of the usage message, and the generated API description. Texts are sequences of characters, so
-- that a path or a body that is not valid UTF-8 is outside the model; on such a path `Logger` panics, as
-- `WithLabelValues` refuses the label, and `Recover` takes the panic.
pub mod Common
pub mod Errors
pub mod Breaker
pub mod Retry
pub mod Client
pub mod Domain
pub mod Runtime
pub mod Storage
pub mod Messaging
pub mod Ingest
pub mod Json
pub mod Mapper
pub mod Process
pub mod Http
pub mod Worker
pub mod Config
pub mod Platform
pub mod Notifier
pub mod Service
pub mod Migrate
pub mod System
pub mod Concurrent
pub mod Tests
