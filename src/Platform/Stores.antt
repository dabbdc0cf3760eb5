-- ===== src/Platform/Stores.antt =====
-- internal/infra/storage/postgres/postgres.go and internal/infra/storage/clickhouse/clickhouse.go:
-- how the connections are opened.
use event_observability_plat.Common.{
  ℕ, ◌-◌, ◌*◌, ◌%◌, ◌^◌, String, Option, none, some, if◌then◌else◌, ℤ, pos, negsuc, ltb, ◌+ℤ◌,
}
use event_observability_plat.Errors.{Err, external, wrapped}
use event_observability_plat.Config.{PostgresConfig, ClickHouseConfig}
use event_observability_plat.Platform.Life.{L, ◌>>◌, pure, act, opened, postgres, clickhouse}

-- The low 32 bits of a number, read as an int32.
abbrev pub signed32 : ℕ → ℤ
signed32 bits = if ltb bits (2 ^ 31) then pos bits else negsuc (2 ^ 32 - 1 - bits)

-- `int32(x)` of an int
unfoldable pub to_int32 : ℤ → ℤ
to_int32 (pos n) = signed32 (n % 2 ^ 32)
to_int32 (negsuc n) = signed32 (2 ^ 32 - 1 - n % 2 ^ 32)

-- The limits of a pgxpool.Config.
pub record PoolConfig : Type 0 where
  pub dsn : String
  pub max_conns : ℤ
  pub min_conns : ℤ
  pub max_conn_lifetime : ℤ

unfoldable pub pool_config : PostgresConfig → PoolConfig
unfolding to_int32
pool_config cfg = record {
  dsn = cfg.dsn;
  max_conns = to_int32 cfg.max_open_conns;
  min_conns = to_int32 cfg.max_idle_conns;
  max_conn_lifetime = cfg.conn_max_lifetime;
}

-- What the drivers answer: an error, or none.
pub record Drivers : Type 0 where
  pub parse_dsn : String → Option String
  pub new_pool : PoolConfig → Option String
  pub open_clickhouse : ClickHouseConfig → Option String
  pub ping_clickhouse : ClickHouseConfig → Option String

-- `postgres.New`
unfoldable pub new_postgres : Drivers → PostgresConfig → L (Option Err)
unfolding pool_config
new_postgres d cfg = elim (d.parse_dsn cfg.dsn) [
  | some e ↦ pure (some (wrapped "parse postgres dsn" (external e)))
  | none ↦ elim (d.new_pool (pool_config cfg)) [
    | some e ↦ pure (some (wrapped "create postgres pool" (external e)))
    | none ↦ do act (opened postgres); pure none
  ]
]

-- `clickhouse.New`; a connection whose ping fails stays open.
unfoldable pub new_clickhouse : Drivers → ClickHouseConfig → L (Option Err)
new_clickhouse d cfg = elim (d.open_clickhouse cfg) [
  | some e ↦ pure (some (wrapped "open clickhouse" (external e)))
  | none ↦ do
    act (opened clickhouse)
    (elim (d.ping_clickhouse cfg) [
      | some e ↦ pure (some (wrapped "ping clickhouse" (external e)))
      | none ↦ pure none
    ])
]

-- The limits of a configuration with whole multiples of 2 ^ 32 added to them.
abbrev pub raised : PostgresConfig → (k l : ℕ) → PostgresConfig
raised cfg k l = record cfg {
  max_open_conns = cfg.max_open_conns +ℤ pos (k * 2 ^ 32);
  max_idle_conns = cfg.max_idle_conns +ℤ pos (l * 2 ^ 32);
}
