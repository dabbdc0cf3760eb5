-- ===== src/Service/Balance/Server.antt =====
-- What the server has closed when it returns.
use event_observability_plat.Common.{
  ◌≡◌, ◌⊎◌, inl, inr, refl, sym, ap, ◌∙◌, Option-cases, arith, Bool, true, false, none, some, List,
  [], ◌∷◌, ◌++◌, not,
}
use event_observability_plat.Errors.{Err, ok, err}
use event_observability_plat.Config.{Config, load}
use event_observability_plat.Platform.Life.{
  Act, Resource, tracing, clickhouse, http_server, closes_in_use, left_open,
}
use event_observability_plat.Platform.Tracing.{shutdown, exporter_of}
use event_observability_plat.Platform.Stores.{new_postgres, new_clickhouse}
use event_observability_plat.Service.{
  Outside, Outcome, run_server, serve_with_tracing, serve_with_postgres, serve_with_clickhouse,
  serve, listen, tracing_config,
}
use event_observability_plat.Service.Balance.{Leaves, traced, traced_acts, init_wanted}

-- The listener and its handlers, where these have not ended.
abbrev pub running : Bool → List Resource
running true = []
running false = http_server ∷ []

-- What a server leaves open.
abbrev server_left : Outside → Config → Bool → List Resource
server_left o cfg traces = elim (new_postgres o.drivers cfg.postgres []).0 [
  | some e ↦ traced traces
  | none ↦ elim (o.drivers.open_clickhouse cfg.click_house) [
    | some e ↦ traced traces
    | none ↦ elim (o.drivers.ping_clickhouse cfg.click_house) [
      | some e ↦ traced traces ++ clickhouse ∷ []
      | none ↦ elim o.listen_error [ some e ↦ traced traces | none ↦ [] ] ++ running o.handlers_end
    ]
  ]
]

module _ (o : Outside) (cfg : Config) where
  tracing_server :
      (traces : Bool)
      → Leaves
          (serve_with_tracing o cfg (ok traces) (traced_acts traces)).1
          (server_left o cfg traces)
  unfolding serve_with_tracing serve_with_postgres serve_with_clickhouse serve listen shutdown
      new_postgres new_clickhouse
  tracing_server true = ground arith
  tracing_server false = ground arith

-- Nothing but the tracing and a ClickHouse connection.
abbrev pub IsFew : List Resource → Type 0
IsFew left =
    (left ≡ [])
    ⊎ ((left ≡ tracing ∷ []) ⊎ ((left ≡ clickhouse ∷ []) ⊎ (left ≡ tracing ∷ clickhouse ∷ [])))

-- How a run of the server ends, by whether all its handlers have ended when it goes on: it closes nothing that is
-- not open. If they have, it closes nothing in use, and leaves open nothing at a regular end and at most the
-- tracing and a ClickHouse connection that did not answer at a failure. If they have not, a regular end closes what
-- they use.
pub record ServerEnds (ended : Bool) (out : Outcome × List Act) : Type 0 where
  pub left : List Resource
  pub leaves : Leaves out.1 left
  pub safe : ended ≡ true → closes_in_use out.1 [] ≡ false
  pub exposed : out.0 ≡ ok tt → closes_in_use out.1 [] ≡ not ended
  pub clean : out.0 ≡ ok tt → left ≡ running ended
  pub few : ended ≡ true → IsFew left

forgotten :
    (o : Outside) (cfg : Config) (e : Err)
    → (serve_with_tracing o cfg (ok true) (traced_acts true)).0 ≡ err e
    → (rest : List Resource) × (server_left o cfg true ≡ tracing ∷ rest)
unfolding serve_with_tracing serve_with_postgres serve_with_clickhouse serve listen shutdown
    new_postgres new_clickhouse
forgotten o cfg e h = elim (Option-cases (new_postgres o.drivers cfg.postgres []).0) [
  | inr (x, a) ↦ ([], ground (arith, a))
  | inl a ↦ elim (Option-cases (o.drivers.open_clickhouse cfg.click_house)) [
    | inr (x, b) ↦ ([], ground (arith, a, b))
    | inl b ↦ elim (Option-cases (o.drivers.ping_clickhouse cfg.click_house)) [
      | inr (x, c) ↦ (clickhouse ∷ [], ground (arith, a, b, c))
      | inl c ↦ elim (Option-cases o.listen_error) [
        | inr (x, d) ↦ (running o.handlers_end, ground (arith, a, b, c, d))
        | inl d ↦ ([], ground (arith, a, b, c, d))
      ]
    ]
  ]
]

-- Where the tracing is wanted and has been set up, every failure of `RunServer` after that leaves it open:
-- the shutdown that flushes its spans is reached on the regular end alone.
pub failed_server_keeps_tracing :
    (o : Outside) (cfg : Config) (e : Err)
    → load o.environ ≡ ok cfg
    → cfg.otel.enabled ≡ true
    → o.telemetry.describe (tracing_config cfg.otel "").service_name ≡ none
    → o.telemetry.export (exporter_of (tracing_config cfg.otel "")) ≡ none
    → (run_server o []).0 ≡ err e
    → (rest : List Resource) × Leaves (run_server o []).1 (tracing ∷ rest)
unfolding run_server
failed_server_keeps_tracing o cfg e loaded wanted described exported failed =
    let set_up = init_wanted o.telemetry (tracing_config cfg.otel "") wanted described exported in
    let same : run_server o [] ≡ serve_with_tracing o cfg (ok true) (traced_acts true) =
      rw (loaded, run_server) (rw set_up refl) in
    let left = forgotten o cfg e (sym (ap (λ (out : Outcome × List Act). out.0) same) ∙ failed) in
    (
      left.0,
      ap (λ (out : Outcome × List Act). left_open out.1 []) same
          ∙ (tracing_server o cfg true ∙ ap some left.1),
    )
