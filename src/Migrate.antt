-- ===== src/Migrate.antt =====
-- internal/app/migrate/migrate.go: the command of cmd/migrate. goose and the drivers are parameters; the
-- text of the usage message is left out.
pub mod Targets
use event_observability_plat.Common.{
  ℕ, ◌≡◌, ◌≢◌, ◌⊎◌, ◌↔◌, inl, inr, refl, arith, String, Bool, true, false, str_eq, str_eq_iff,
  Bool-cases, Option, Option-cases, none, some, List, [], ◌∷◌, if◌then◌else◌, ◌^^◌,
}

-- The parsed command line: the flag `target`, which is "postgres" where it is not given, the flag `dir`,
-- which is empty where it is not given, and what stands behind the flags.
pub record CommandLine : Type 0 where
  pub target : String
  pub dir : String
  pub args : List String

-- A run of goose.
pub record Migration : Type 0 where
  pub dialect : String
  pub dsn : String
  pub dir : String
  pub command : String
  pub args : List String

-- How the program ends: with the usage message, by `log.Fatalf`, both with the exit code 1, or after
-- the migration, with 0.
pub data End : Type 0 where
  usage : End
  fatal : String → End
  migrated : Migration → End

-- The environment, and what `sql.Open` for a driver and goose answer.
pub record Tools : Type 0 where
  pub getenv : String → String
  pub open_db : String → String → Option String
  pub set_dialect : String → Option String
  pub run : Migration → Option String

abbrev pub target_postgres : String
target_postgres = "postgres"

abbrev pub target_clickhouse : String
target_clickhouse = "clickhouse"

-- A step of the program: its value, or the message of `log.Fatalf`.
pub data Step (A : Type 0) : Type 0 where
  done : A → Step A
  dies : String → Step A

infixl 5 ◌>>=◌
abbrev pub ◌>>=◌ : {A B : Type 0} → Step A → (A → Step B) → Step B
done a >>= f = f a
dies e >>= f = dies e

unfoldable pub required_env : Tools → String → Step String
required_env t key =
    if str_eq (t.getenv key) "" then dies ("env " ^^ key ^^ " is required") else done (t.getenv key)

-- The migrations directory.
unfoldable pub migrations_dir : CommandLine → Step String
migrations_dir c =
    if str_eq c.dir ""
    then (if str_eq c.target target_postgres
        then done "migrations/postgres"
        else if str_eq c.target target_clickhouse
        then done "migrations/clickhouse"
        else dies "unknown target")
    else done c.dir

unfoldable pub connect : Tools → String → String → String → String → Step (String × String)
unfolding required_env
connect t key driver what dialect = do
  dsn ← required_env t key
  elim (t.open_db driver dsn) [
    | some e ↦ dies ("open " ^^ what ^^ ": " ^^ e)
    | none ↦ done (dialect, dsn)
  ]

-- `OpenDB`: the name of the dialect, and the DSN of the database that is opened.
unfoldable pub open_db_for : Tools → String → Step (String × String)
unfolding connect
open_db_for t target =
    if str_eq target target_postgres
    then connect t "POSTGRES_DSN" "pgx" "postgres" "postgres"
    else if str_eq target target_clickhouse
    then connect t "CLICKHOUSE_DSN" "clickhouse" "clickhouse" "clickhouse"
    else dies "unknown target"

unfoldable pub run_goose : Tools → Migration → Step Migration
run_goose t m = elim (t.set_dialect m.dialect) [
  | some e ↦ dies ("set dialect: " ^^ e)
  | none ↦ elim (t.run m) [ some e ↦ dies ("migrate " ^^ m.command ^^ ": " ^^ e) | none ↦ done m ]
]

-- `Run` behind the check of the arguments.
unfoldable pub migrate : Tools → CommandLine → String → List String → Step Migration
migrate t c command args = do
  dir ← migrations_dir c
  db ← open_db_for t c.target
  run_goose t (record { dialect = db.0; dsn = db.1; dir = dir; command = command; args = args })

abbrev pub ends : Step Migration → End
ends (done m) = migrated m
ends (dies e) = fatal e

-- `Run`
unfoldable pub run_migrate : Tools → CommandLine → End
run_migrate t c = elim c.args [ [] ↦ usage | command ∷ args ↦ ends (migrate t c command args) ]

abbrev pub exit_code : End → ℕ
exit_code usage = 1
exit_code (fatal e) = 1
exit_code (migrated m) = 0
