-- ===== src/Tests/Service.antt =====
-- The processes, the routes, the migrations and the worker's queue at concrete inputs.
use event_observability_plat.Http.Middleware.{HttpRequest, add_count}
use event_observability_plat.Http.Whole.{respond, respond_cases, seen, first_bytes}
use event_observability_plat.Http.Webhook.Replay.{Reaches, IsSound, added}
use event_observability_plat.Service.EndToEnd.{incoming_of, event_id, posted_is_processed}
use event_observability_plat.Tests.Machines.{
  body_text, first_text, body, sound, handler, incoming, worker, topics, stale,
}
use event_observability_plat.Runtime.{http_requests, World, Machine}
use event_observability_plat.Common.{
  itoa, split, trim_space, false, ℕ, ◌≤◌, ◌≡◌, ◌≢◌, ◌⊎◌, refl, arith, String, Bool, true, leb,
  str_eq, str_eq_iff, Option, none, some, List, [], ◌∷◌, ◌++◌, if◌then◌else◌, ℤ, pos,
}
use event_observability_plat.Config.{
  natural, digits, atoi, Config, PostgresConfig, Environ, load, require_env, settings, get_env_bool,
  parse_bool, get_env_string_slice, trimmed,
}
use event_observability_plat.Messaging.Consumer.{ReaderConfig, new_consumer}
use event_observability_plat.Mapper.{unmarshal_event_message}
use event_observability_plat.Json.Fields.{set_all, members}
use event_observability_plat.Json.Text.{of_code, unquote}
use event_observability_plat.Json.Tokens.{tokens}
use event_observability_plat.Json.{before}
use event_observability_plat.Errors.{external, wrapped, ok, err}
use event_observability_plat.Domain.{processed}
use event_observability_plat.Http.Webhook.{handle_event}
use event_observability_plat.Http.Server.{Server, Request, serve, route_of, pprof_page}
use event_observability_plat.Http.Server.Routing.{IsUntouched, serve_cases}
use event_observability_plat.Migrate.{
  CommandLine, Migration, Tools, run_migrate, migrated, exit_code, migrate, migrations_dir,
  open_db_for, connect, required_env, run_goose,
}
use event_observability_plat.Migrate.Targets.{IsFor, run_migrate-IsFor}
use event_observability_plat.Service.{
  Outside, run_server, run_worker, serve_with_tracing, serve_with_postgres, serve_with_clickhouse,
  serve as serve_process, init_infra, infra_with_tracing, infra_with_postgres,
  infra_with_clickhouse, work, work_with, panicked, listen,
}
use event_observability_plat.Platform.Tracing.{init, build_exporter, shutdown}
use event_observability_plat.Platform.Stores.{new_postgres, new_clickhouse}
use event_observability_plat.Http.{raw}
use event_observability_plat.Service.Balance.Server.{failed_server_keeps_tracing}
use event_observability_plat.Service.Balance.{Leaves}
use event_observability_plat.Platform.Life.{Resource, tracing}
use event_observability_plat.Worker.Queue.{values_of, drop, work_off, queue_work}
use event_observability_plat.Worker.Queue.Ends.{work_off-ends}
use event_observability_plat.Service.Wiring.{Libraries, server_of, process_event_of, topics_of}
use event_observability_plat.Storage.Events.{find_row, with_status}
use event_observability_plat.Storage.Analytics.{log_row}
use event_observability_plat.Storage.Idempotency.{find_key, unexpired}
use event_observability_plat.Tests.Pipeline.{body-Reaches}
use event_observability_plat.System.{empty}

abbrev environ : Environ
environ = record {
  getenv = λ key.
      if str_eq key "POSTGRES_DSN" then "db" else if str_eq key "OTEL_ENABLED" then "true" else "";
  parse_duration = λ s. none;
}

-- `kafka.NewReader` on a configuration without a broker, and on any other.
abbrev accepts_brokers : ReaderConfig → Option String
accepts_brokers cfg = elim cfg.brokers [
  | [] ↦ some "cannot create a new kafka reader with an empty list of broker addresses"
  | b ∷ rest ↦ none
]

-- A process in which everything but the listener works, and whose handlers and loops end in time or not.
abbrev outside : Option String → Bool → Outside
outside failure ends = record {
  environ = environ;
  telemetry = record { describe = λ name. none; export = λ e. none };
  drivers = record {
    parse_dsn = λ dsn. none;
    new_pool = λ c. none;
    open_clickhouse = λ c. none;
    ping_clickhouse = λ c. none;
  };
  new_reader = accepts_brokers;
  listen_error = failure;
  handlers_end = ends;
  loops_end = ends;
  lag_ends = false;
}

-- Without a broker the worker panics with everything open.
abbrev no_broker : Outside
no_broker = record (outside none true) {
  environ = record environ {
    getenv = λ key.
        if str_eq key "POSTGRES_DSN" then "db" else if str_eq key "KAFKA_BROKERS" then "," else "";
  };
}

panics : (p : String) × ((run_worker no_broker []).0 ≡ panicked p)
unfolding run_worker init_infra infra_with_tracing infra_with_postgres infra_with_clickhouse work
    work_with new_consumer load require_env settings get_env_bool parse_bool init build_exporter
    get_env_string_slice trimmed split trim_space new_postgres new_clickhouse
panics = (_, refl)

loaded : load environ ≡ ok (settings environ "db")
unfolding load require_env
loaded = refl

wanted : (settings environ "db").otel.enabled ≡ true
unfolding settings get_env_bool parse_bool
wanted = refl

port_taken :
    (run_server (outside (some "in use") true) []).0
    ≡ err (wrapped "http error" (external "in use"))
unfolding run_server load require_env settings get_env_bool parse_bool init build_exporter
    serve_with_tracing serve_with_postgres serve_with_clickhouse serve_process listen shutdown
    new_postgres new_clickhouse
port_taken = refl

failed_server_keeps_tracing_example :
    (rest : List Resource) × Leaves
      (run_server (outside (some "in use") true) []).1
      (tracing ∷ rest)
failed_server_keeps_tracing_example =
    failed_server_keeps_tracing (outside (some "in use") true) (settings environ "db")
      (wrapped "http error" (external "in use")) loaded wanted refl refl port_taken

-- `migrate -target clickhouse up`, with both databases set.
abbrev tools : Tools
tools = record {
  getenv = λ key.
      if str_eq key "POSTGRES_DSN" then "pg" else if str_eq key "CLICKHOUSE_DSN" then "ch" else "";
  open_db = λ driver dsn. none;
  set_dialect = λ dialect. none;
  run = λ m. none;
}

abbrev command_line : CommandLine
command_line = record { target = "clickhouse"; dir = ""; args = "up" ∷ [] }

migrates : exit_code (run_migrate tools command_line) ≡ 0
unfolding run_migrate migrate migrations_dir open_db_for connect required_env run_goose
migrates = refl

run_migrate-IsFor_example :
    (m : Migration) × (run_migrate tools command_line ≡ migrated m)
    × (IsFor tools command_line m "postgres" "POSTGRES_DSN"
        ⊎ IsFor tools command_line m "clickhouse" "CLICKHOUSE_DSN")
run_migrate-IsFor_example = run_migrate-IsFor tools command_line migrates

abbrev server : Server
server = record {
  webhook = handler;
  pprof = false;
  page = λ route w. record { status = 200; headers = []; body = raw "" };
}

abbrev posted : Request
posted = record {
  method = "POST";
  path = "/webhooks/events";
  incoming = incoming;
  range = record { from = ""; to = "" };
}

serve_cases_example :
    (posted.method ≡ "POST"
      → posted.path ≡ "/webhooks/events"
      → serve sound server posted stale ≡ handle_event sound handler incoming stale)
    × ((posted.method ≢ "POST") ⊎ (posted.path ≢ "/webhooks/events")
        → IsUntouched stale (serve sound server posted stale).1)
    × (false ≡ false → (name : String) → route_of false posted.method posted.path ≢ pprof_page name)
serve_cases_example = serve_cases sound server posted stale

-- The store of the events fails at every call, and the topic holds an event's message behind a broken one.
abbrev failing : Machine
failing = record sound { fault = λ k. if leb k 1 then some "refused" else none }

abbrev waiting : World
waiting = record empty {
  sent =
      record { topic = "events"; key = "id-1"; value = "{"; headers = [] }
      ∷ record { topic = "events"; key = "id-1"; value = first_text; headers = [] }
      ∷ [];
}

topics_differ : topics.dlq ≢ topics.events
topics_differ h = ground (arith, h, str_eq_iff "events.dlq" "events")

little_work : queue_work failing worker (drop 0 (values_of topics.events waiting.sent)) ≤ 4
unfolding queue_work values_of unmarshal_event_message tokens set_all members before of_code unquote
    atoi natural digits
little_work = omega arith

work_off-ends_example :
    (end : ℕ) × ((work_off failing worker topics 5 0 waiting).0 ≡ some end)
    × (drop end (values_of topics.events (work_off failing worker topics 5 0 waiting).1.sent) ≡ [])
work_off-ends_example =
    work_off-ends failing worker topics (omega arith) topics_differ 4 0 waiting little_work

-- What the processes read from an environment that sets the data source and nothing else of theirs.
abbrev by_default : Config
by_default = settings environ "db"

abbrev limits : PostgresConfig
limits = record by_default.postgres { max_open_conns = pos 25; max_idle_conns = pos 5 }

abbrev libraries : Libraries
libraries = record {
  jsonb = λ s. s;
  page = λ route w. record { status = 200; headers = []; body = raw "" };
}

by_default-IsSound : IsSound sound (server_of libraries by_default).webhook empty
unfolding find_row server_of
by_default-IsSound = record { quiet = λ k. refl; fresh = refl; publisher = refl }

-- The same request as it comes to the server.
abbrev post : HttpRequest
post = record {
  method = "POST";
  path = "/webhooks/events";
  content_type = "application/json";
  body = body_text;
  range = record { from = ""; to = "" };
  request_header = "";
  span = some "t";
  context = record { request_id = ""; trace_id = "" };
  limit = none;
}

post-Reaches :
    Reaches (incoming_of libraries by_default sound "fresh" body post empty by_default-IsSound) body
unfolding first_bytes
post-Reaches = body-Reaches

posted_is_processed_example :
    let e =
      added sound (server_of libraries by_default).webhook body "t" empty by_default-IsSound in
    let one = respond sound (server_of libraries by_default) "fresh" post empty in
    let two = work_off sound (process_event_of by_default) (topics_of by_default) 2 0 one.world in
    (one.status ≡ some 202)
    × (two.0 ≡ some 1)
    × ((at : ℤ) × (find_row
            (event_id libraries by_default sound "fresh" body post empty by_default-IsSound)
            two.1.events
          ≡ some (with_status processed (some at) e)))
    × ((at : ℤ) × (two.1.log ≡ [] ++ log_row e at ∷ []))
    × (two.1.sent ≡ one.world.sent)
unfolding values_of
posted_is_processed_example =
    posted_is_processed libraries by_default sound "fresh" body post empty by_default-IsSound refl
      refl post-Reaches (unfold find_key unexpired in refl)

respond_cases_example :
    let out = serve sound server (seen sound server "fresh" post stale) stale in
    let served = respond sound server "fresh" post stale in
    (served.panicked ≡ false)
    × (served.status ≡ some out.0.status)
    × (served.world ≡ add_count (http_requests "POST" "/webhooks/events" (itoa out.0.status)) out.1)
    × (post.method ≡ "POST"
        → post.path ≡ "/webhooks/events"
        → out
          ≡ handle_event sound server.webhook
              (record {
                content_type = "application/json";
                body = first_bytes 1048576 body_text;
                trace_id = "t";
              })
              stale)
    × ((post.method ≢ "POST") ⊎ (post.path ≢ "/webhooks/events")
        → (served.world.events ≡ stale.events)
          × (served.world.keys ≡ stale.keys)
          × (served.world.sent ≡ stale.sent))
respond_cases_example = respond_cases sound server "fresh" post stale
