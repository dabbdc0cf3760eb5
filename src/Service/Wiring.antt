-- ===== src/Service/Wiring.antt =====
-- internal/app/service/server.go and worker.go: what the two processes build from their configuration.
use event_observability_plat.Common.{◌+◌, String, true, ℤ, pos, negsuc, itoa, ◌^^◌}
use event_observability_plat.Runtime.{World}
use event_observability_plat.Config.{Config}
use event_observability_plat.Process.{ProcessEvent}
use event_observability_plat.Worker.{Topics}
use event_observability_plat.Http.{Reply}
use event_observability_plat.Http.Server.{Server, Route}
use event_observability_plat.Platform.Logging.{LogHandler, new_logger}

-- The fields of the http.Server that `NewServer` returns, but for its handler.
pub record Listener : Type 0 where
  pub addr : String
  pub read_timeout : ℤ
  pub write_timeout : ℤ
  pub idle_timeout : ℤ

-- `%d`
abbrev pub decimal : ℤ → String
decimal (pos n) = itoa n
decimal (negsuc n) = "-" ^^ itoa (n + 1)

-- What libraries do for the server: the reading of a JSONB column, and the pages that they serve.
pub record Libraries : Type 0 where
  pub jsonb : String → String
  pub page : Route → World → Reply

unfoldable pub listener_of : Config → Listener
listener_of cfg = record {
  addr = cfg.http.host ^^ ":" ^^ decimal cfg.http.port;
  read_timeout = cfg.http.read_timeout;
  write_timeout = cfg.http.write_timeout;
  idle_timeout = cfg.http.idle_timeout;
}

unfoldable pub server_of : Libraries → Config → Server
server_of lib cfg = record {
  webhook = record {
    ingest = record { publisher = true; topic = cfg.kafka.topic_events };
    idem_ttl = cfg.app.idempotency_ttl;
    jsonb = lib.jsonb;
  };
  pprof = cfg.http.pprof_enabled;
  page = lib.page;
}

unfoldable pub process_event_of : Config → ProcessEvent
process_event_of cfg = record { analytics = true; max_retries = cfg.kafka.max_retries }

unfoldable pub topics_of : Config → Topics
topics_of cfg = record { events = cfg.kafka.topic_events; dlq = cfg.kafka.topic_dlq }

unfoldable pub logger_of : Config → LogHandler
logger_of cfg = new_logger cfg.log.level cfg.log.format
