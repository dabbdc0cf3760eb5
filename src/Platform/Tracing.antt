-- ===== src/Platform/Tracing.antt =====
-- internal/platform/tracing/tracing.go: the trace exporter and its shutdown.
use event_observability_plat.Common.{
  String, Bool, true, false, str_eq, Option, none, some, if◌then◌else◌,
}
use event_observability_plat.Errors.{Err, external, wrapped, Result, ok, err}
use event_observability_plat.Platform.Life.{L, ◌>>◌, pure, act, opened, closed, tracing}

pub record TracingConfig : Type 0 where
  pub enabled : Bool
  pub service_name : String
  pub exporter_type : String
  pub endpoint : String

pub data Exporter : Type 0 where
  otlp : String → Exporter  -- to that endpoint
  to_stdout : Exporter

-- What the OpenTelemetry SDK answers: the error of building the resource for a service, and of
-- building an exporter.
pub record Telemetry : Type 0 where
  pub describe : String → Option String
  pub export : Exporter → Option String

abbrev pub exporter_of : TracingConfig → Exporter
exporter_of cfg = if str_eq cfg.exporter_type "otlp" then otlp cfg.endpoint else to_stdout

abbrev pub exporter_error : Exporter → String → Err
exporter_error (otlp endpoint) e = wrapped "create otlp exporter" (external e)
exporter_error to_stdout e = wrapped "create stdout exporter" (external e)

-- `buildExporter`
unfoldable pub build_exporter : Telemetry → TracingConfig → Result Exporter
build_exporter tel cfg = elim (tel.export (exporter_of cfg)) [
  | none ↦ ok (exporter_of cfg)
  | some e ↦ err (exporter_error (exporter_of cfg) e)
]

-- `Init`; the result says whether the shutdown function that it returns has a provider to shut down.
unfoldable pub init : Telemetry → TracingConfig → L (Result Bool)
unfolding build_exporter
init tel cfg =
    if cfg.enabled
    then elim (tel.describe cfg.service_name) [
      | some e ↦ pure (err (wrapped "build otel resource" (external e)))
      | none ↦ elim (build_exporter tel cfg) [
        | err e ↦ pure (err e)
        | ok exporter ↦ do act (opened tracing); pure (ok true)
      ]
    ]
    else pure (ok false)

-- The ShutdownFunc.
unfoldable pub shutdown : Bool → L (Unit {0})
shutdown true = act (closed tracing)
shutdown false = pure tt
