-- ===== src/Config.antt =====
-- internal/config.go: the configuration that the environment gives.
pub mod Numbers
pub mod Loaded
use Prim.Native.Char.{Char, code}
use event_observability_plat.Common.{
  ℕ, ◌+◌, ◌-◌, ◌*◌, ◌^◌, String, Bool, true, false, ◌&&◌, ◌||◌, str_eq, Option, none, some, List,
  [], ◌∷◌, if◌then◌else◌, ℤ, pos, negsuc, leb, ltb, ◌==◌, trim_space, split, ◌^^◌,
}
use event_observability_plat.Errors.{Err, message, Result, ok, err}

pub record ClickHouseConfig : Type 0 where
  pub addr : String
  pub database : String
  pub username : String
  pub password : String

pub record KafkaConfig : Type 0 where
  pub brokers : List String
  pub topic_events : String
  pub topic_dlq : String
  pub consumer_group : String
  pub max_retries : ℤ

pub record AppConfig : Type 0 where
  pub idempotency_ttl : ℤ

pub record HttpConfig : Type 0 where
  pub host : String
  pub port : ℤ
  pub read_timeout : ℤ
  pub write_timeout : ℤ
  pub idle_timeout : ℤ
  pub pprof_enabled : Bool

pub record PostgresConfig : Type 0 where
  pub dsn : String
  pub max_open_conns : ℤ
  pub max_idle_conns : ℤ
  pub conn_max_lifetime : ℤ

pub record LogConfig : Type 0 where
  pub level : String
  pub format : String

pub record OtelConfig : Type 0 where
  pub enabled : Bool
  pub service_name : String
  pub exporter_type : String
  pub endpoint : String

pub record Config : Type 0 where
  pub http : HttpConfig
  pub postgres : PostgresConfig
  pub kafka : KafkaConfig
  pub click_house : ClickHouseConfig
  pub log : LogConfig
  pub otel : OtelConfig
  pub app : AppConfig

-- The environment: `os.Getenv`, which gives the empty text for a variable that is not set, and
-- `time.ParseDuration`, in nanoseconds.
pub record Environ : Type 0 where
  pub getenv : String → String
  pub parse_duration : String → Option ℤ

-- The number that decimal digits give behind the number v, if all are digits.
unfoldable pub digits : ℕ → String → Option ℕ
digits v String.[] = some v
digits v (String.◌∷◌ c s) =
    let rest = digits (v * 10 + (code c - 48)) s in
    if leb 48 (code c) && leb (code c) 57 then rest else none

unfoldable pub natural : String → Option ℕ
natural String.[] = none
natural (String.◌∷◌ c s) = digits 0 (String.◌∷◌ c s)

-- What fits in an int of 64 bits, above and below zero.
abbrev pub positive : Option ℕ → Option ℤ
positive none = none
positive (some n) = if ltb n (2 ^ 63) then some (pos n) else none

abbrev pub negative : Option ℕ → Option ℤ
negative none = none
negative (some n) =
    if n == 0 then some (pos 0) else if leb n (2 ^ 63) then some (negsuc (n - 1)) else none

-- `strconv.Atoi`; `none` is its error.
unfoldable pub atoi : String → Option ℤ
atoi String.[] = none
atoi (String.◌∷◌ c s) =
    if code c == 45
    then negative (natural s)
    else if code c == 43
    then positive (natural s)
    else positive (natural (String.◌∷◌ c s))

-- `strconv.ParseBool`; `none` is its error.
unfoldable pub parse_bool : String → Option Bool
parse_bool s =
    if str_eq s "1"
      || str_eq s "t"
      || str_eq s "T"
      || str_eq s "true"
      || str_eq s "TRUE"
      || str_eq s "True"
    then some true
    else if str_eq s "0"
        || str_eq s "f"
        || str_eq s "F"
        || str_eq s "false"
        || str_eq s "FALSE"
        || str_eq s "False"
    then some false
    else none

abbrev pub or_else {ℓ} : {A : Type ℓ} → Option A → A → A
or_else none fallback = fallback
or_else (some a) fallback = a

-- The parts of a list that are left when they are trimmed and the empty ones dropped.
unfoldable pub trimmed : List String → List String
trimmed [] = []
trimmed (p ∷ parts) =
    let rest = trimmed parts in if str_eq (trim_space p) "" then rest else trim_space p ∷ rest

module _ (env : Environ) where
  unfoldable pub require_env : String → Result String
  require_env key =
      if str_eq (env.getenv key) ""
      then err (message ("required environment variable \"" ^^ key ^^ "\" is not set"))
      else ok (env.getenv key)

  unfoldable pub get_env : String → String → String
  get_env key fallback = if str_eq (env.getenv key) "" then fallback else env.getenv key

  unfoldable pub get_env_int : String → ℤ → ℤ
  get_env_int key fallback =
      if str_eq (env.getenv key) "" then fallback else or_else (atoi (env.getenv key)) fallback

  unfoldable pub get_env_bool : String → Bool → Bool
  get_env_bool key fallback =
      if str_eq (env.getenv key) ""
      then fallback
      else or_else (parse_bool (env.getenv key)) fallback

  unfoldable pub get_env_string_slice : String → List String → List String
  get_env_string_slice key fallback =
      if str_eq (env.getenv key) "" then fallback else trimmed (split "," (env.getenv key))

  unfoldable pub get_env_duration : String → ℤ → ℤ
  get_env_duration key fallback =
      if str_eq (env.getenv key) ""
      then fallback
      else or_else (env.parse_duration (env.getenv key)) fallback

  abbrev seconds : ℕ → ℤ
  seconds n = pos (n * 1000000000)

  unfoldable pub settings : String → Config
  settings dsn = record {
    http = record {
      host = get_env "HTTP_HOST" "0.0.0.0";
      port = get_env_int "HTTP_PORT" (pos 8080);
      read_timeout = get_env_duration "HTTP_READ_TIMEOUT" (seconds 15);
      write_timeout = get_env_duration "HTTP_WRITE_TIMEOUT" (seconds 15);
      idle_timeout = get_env_duration "HTTP_IDLE_TIMEOUT" (seconds 60);
      pprof_enabled = get_env_bool "PPROF_ENABLED" false;
    };
    postgres = record {
      dsn = dsn;
      max_open_conns = get_env_int "POSTGRES_MAX_OPEN_CONNS" (pos 25);
      max_idle_conns = get_env_int "POSTGRES_MAX_IDLE_CONNS" (pos 5);
      conn_max_lifetime = get_env_duration "POSTGRES_CONN_MAX_LIFETIME" (seconds 300);
    };
    log = record { level = get_env "LOG_LEVEL" "info"; format = get_env "LOG_FORMAT" "json" };
    click_house = record {
      addr = get_env "CLICKHOUSE_ADDR" "localhost:9000";
      database = get_env "CLICKHOUSE_DATABASE" "events";
      username = get_env "CLICKHOUSE_USER" "events";
      password = get_env "CLICKHOUSE_PASSWORD" "events";
    };
    kafka = record {
      brokers = get_env_string_slice "KAFKA_BROKERS" ("localhost:19092" ∷ []);
      topic_events = get_env "KAFKA_TOPIC_EVENTS" "events";
      topic_dlq = get_env "KAFKA_TOPIC_DLQ" "events.dlq";
      consumer_group = get_env "KAFKA_CONSUMER_GROUP" "event-processor";
      max_retries = get_env_int "KAFKA_MAX_RETRIES" (pos 3);
    };
    otel = record {
      enabled = get_env_bool "OTEL_ENABLED" false;
      service_name = get_env "OTEL_SERVICE_NAME" "event-observability-platform";
      exporter_type = get_env "OTEL_EXPORTER_TYPE" "stdout";
      endpoint = get_env "OTEL_EXPORTER_OTLP_ENDPOINT" "http://localhost:4318";
    };
    app = record { idempotency_ttl = get_env_duration "IDEMPOTENCY_TTL" (seconds 86400) };
  }

  -- `Load`
  unfoldable pub load : Result Config
  load = elim (require_env "POSTGRES_DSN") [ err e ↦ err e | ok dsn ↦ ok (settings dsn) ]
