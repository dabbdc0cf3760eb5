-- ===== src/Service/Balance.antt =====
-- What the processes have closed when they return: what both share.
pub mod Server
pub mod Worker
use event_observability_plat.Common.{
  ◌≡◌, ◌⊎◌, inl, inr, refl, sym, ap, ◌∙◌, Option-cases, arith, Bool, true, false, not, none, some,
  List, [], ◌∷◌, ◌++◌, if◌then◌else◌,
}
use event_observability_plat.Errors.{Err, ok, err, Result-cases}
use event_observability_plat.Config.{Config, load}
use event_observability_plat.Platform.Life.{
  Act, opened, Resource, tracing, clickhouse, processor, dlq_handler, closes_in_use, left_open,
}
use event_observability_plat.Platform.Tracing.{
  TracingConfig, Telemetry, init, shutdown, exporter_of, build_exporter,
}
use event_observability_plat.Platform.Stores.{new_postgres, new_clickhouse}
use event_observability_plat.Service.{
  Outside, Outcome, run_server, serve_with_tracing, serve_with_postgres, serve_with_clickhouse,
  serve, tracing_config, run_worker, init_infra, infra_with_tracing, infra_with_postgres,
  infra_with_clickhouse, work, run_loops, shutdown_infra,
}

-- A trace closes nothing that is not open and leaves `left` open.
abbrev pub Leaves : List Act → List Resource → Type 0
Leaves acts left = left_open acts [] ≡ some left

-- What `init` has opened.
abbrev pub traced : Bool → List Resource
traced true = tracing ∷ []
traced false = []

abbrev pub traced_acts : Bool → List Act
traced_acts true = opened tracing ∷ []
traced_acts false = []

module _ (tel : Telemetry) (c : TracingConfig) where
  pub init_acts : (t : Bool) → (init tel c []).0 ≡ ok t → init tel c [] ≡ (ok t, traced_acts t)
  unfolding init build_exporter
  init_acts true h = ground arith
  init_acts false h = ground arith

  pub init_failed : (e : Err) → (init tel c []).0 ≡ err e → init tel c [] ≡ (err e, [])
  unfolding init build_exporter
  init_failed e h = ground arith

  -- Tracing that is wanted, and that the SDK can set up.
  pub init_wanted :
      c.enabled ≡ true
      → tel.describe c.service_name ≡ none
      → tel.export (exporter_of c) ≡ none
      → init tel c [] ≡ (ok true, opened tracing ∷ [])
  unfolding init build_exporter
  init_wanted a b d = ground arith
