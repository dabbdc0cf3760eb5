-- ===== src/Migrate/Targets.antt =====
-- Which database a migration reaches.
use event_observability_plat.Common.{
  ◌≡◌, ◌≢◌, ◌⊎◌, inl, inr, refl, arith, String, str_eq, str_eq_iff, Bool-cases, List, [], ◌∷◌,
  if◌then◌else◌, ◌^^◌,
}
use event_observability_plat.Migrate.{
  CommandLine, Migration, migrated, Tools, Step, done, dies, migrations_dir, connect, open_db_for,
  run_goose, migrate, run_migrate, exit_code,
}

-- The dialect, the DSN and the directory of a migration are those of one database.
pub record IsFor (t : Tools) (c : CommandLine) (m : Migration) (name key : String) : Type 0 where
  pub target : c.target ≡ name
  pub dialect : m.dialect ≡ name
  pub dsn : m.dsn ≡ t.getenv key
  pub set : m.dsn ≢ ""
  pub dir : m.dir ≡ (if str_eq c.dir "" then "migrations/" ^^ name else c.dir)
  pub args : m.command ∷ m.args ≡ c.args

step-cases : {A : Type 0} (s : Step A) → ((a : A) × (s ≡ done a)) ⊎ ((e : String) × (s ≡ dies e))
step-cases (done a) = inl (a, refl)
step-cases (dies e) = inr (e, refl)

module _ (t : Tools) (c : CommandLine) where
  dir_for :
      (name dir : String)
      → (name ≡ "postgres") ⊎ (name ≡ "clickhouse")
      → c.target ≡ name
      → migrations_dir c ≡ done dir
      → dir ≡ (if str_eq c.dir "" then "migrations/" ^^ name else c.dir)
  unfolding migrations_dir
  dir_for name dir (inl p) e h =
      rw p (ground (arith, str_eq_iff c.target "postgres", str_eq_iff c.target "clickhouse"))
  dir_for name dir (inr p) e h = rw p (
      ground (
        arith,
        str_eq_iff c.target "postgres",
        str_eq_iff c.target "clickhouse",
        str_eq_iff "clickhouse" "postgres",
      ))

  connect_done :
      (key driver what name dialect dsn : String)
      → connect t key driver what name ≡ done (dialect, dsn)
      → (dialect ≡ name) × (dsn ≡ t.getenv key) × (dsn ≢ "")
  unfolding connect
  connect_done key driver what name dialect dsn h =
      (ground arith, ground arith, λ e. ground (arith, str_eq_iff (t.getenv key) ""))

  -- What a successful opening has opened.
  opened_for :
      (dialect dsn : String)
      → open_db_for t c.target ≡ done (dialect, dsn)
      → ((c.target ≡ "postgres")
          × (dialect ≡ "postgres")
          × (dsn ≡ t.getenv "POSTGRES_DSN")
          × (dsn ≢ ""))
        ⊎ ((c.target ≡ "clickhouse")
            × (dialect ≡ "clickhouse")
            × (dsn ≡ t.getenv "CLICKHOUSE_DSN")
            × (dsn ≢ ""))
  unfolding open_db_for
  opened_for dialect dsn h = elim (Bool-cases (str_eq c.target "postgres")) [
    | inl e ↦
        let h' : connect t "POSTGRES_DSN" "pgx" "postgres" "postgres" ≡ done (dialect, dsn) =
          ground (arith, e) in
        let (a, b, d) = connect_done "POSTGRES_DSN" "pgx" "postgres" "postgres" dialect dsn h' in
        inl ((str_eq_iff c.target "postgres").0 e, a, b, d)
    | inr e ↦
        let h' : connect t "CLICKHOUSE_DSN" "clickhouse" "clickhouse" "clickhouse"
            ≡ done (dialect, dsn) =
          ground (arith, e) in
        let target : c.target ≡ "clickhouse" =
          ground (arith, e, str_eq_iff c.target "clickhouse") in
        let (a, b, d) =
          connect_done "CLICKHOUSE_DSN" "clickhouse" "clickhouse" "clickhouse" dialect dsn h' in
        inr (target, a, b, d)
  ]

  -- The steps of a migration that ended well.
  migrate_done :
      (command : String) (args : List String) (m : Migration)
      → migrate t c command args ≡ done m
      → (migrations_dir c ≡ done m.dir)
        × (open_db_for t c.target ≡ done (m.dialect, m.dsn))
        × (m.command ≡ command)
        × (m.args ≡ args)
  unfolding migrate run_goose
  migrate_done command args m h = (ground arith, ground arith, ground arith, ground arith)

  migrate-IsFor :
      (command : String) (args : List String) (m : Migration)
      → c.args ≡ command ∷ args
      → migrate t c command args ≡ done m
      → IsFor t c m "postgres" "POSTGRES_DSN" ⊎ IsFor t c m "clickhouse" "CLICKHOUSE_DSN"
  migrate-IsFor command args m given h =
      let (dir, db, is_command, is_args) = migrate_done command args m h in
      let same : m.command ∷ m.args ≡ c.args = ground (arith, given, is_command, is_args) in
      elim (opened_for m.dialect m.dsn db) [
        | inl (target, dialect, dsn, set) ↦ inl (record {
          target = target;
          dialect = dialect;
          dsn = dsn;
          set = set;
          dir = dir_for "postgres" m.dir (inl refl) target dir;
          args = same;
        })
        | inr (target, dialect, dsn, set) ↦ inr (record {
          target = target;
          dialect = dialect;
          dsn = dsn;
          set = set;
          dir = dir_for "clickhouse" m.dir (inr refl) target dir;
          args = same;
        })
      ]

  list-cases :
      (args : List String) → (args ≡ []) ⊎ ((a : String) × (rest : List String) × (args ≡ a ∷ rest))
  list-cases [] = inl refl
  list-cases (a ∷ rest) = inr (a, rest, refl)

  -- A migration that the program has run without an error is one of the database that the flag names: with its
  -- dialect, the DSN that its variable holds, which is set, and its directory unless another was given; and it is
  -- the command that was given, with its arguments. Only then is the exit code 0.
  pub run_migrate-IsFor :
      exit_code (run_migrate t c) ≡ 0
      → (m : Migration) × (run_migrate t c ≡ migrated m)
        × (IsFor t c m "postgres" "POSTGRES_DSN" ⊎ IsFor t c m "clickhouse" "CLICKHOUSE_DSN")
  unfolding run_migrate
  run_migrate-IsFor h = elim (list-cases c.args) [
    | inl e ↦ absurd (ground (arith, e))
    | inr (command, args, e) ↦ elim (step-cases (migrate t c command args)) [
      | inl (m, ran) ↦ (m, rw (e, run_migrate) (rw ran refl), migrate-IsFor command args m e ran)
      | inr (x, died) ↦ absurd (ground (arith, e, died))
    ]
  ]
