-- ===== src/Postgres.antt =====
-- internal/postgres/postgres.go and internal/postgres/migrate.go: the pool and the migrations.
pub mod Pool
pub mod Migrations
use playback_service.Prelude.{ℕ, String, ◌<>◌, Option, none, some, [], ◌∷◌, ℤ, pos, if◌then◌else◌}
use playback_service.Apperror.{Fault, wrapped, no_change, is}
use playback_service.External.{Outcome, ok, err}
use playback_service.World.{info, warn, text, number, fault, flag}
use playback_service.Platform.{
  PoolConfig, Platform, pool_opened, pool_closed, migrate_opened, migrate_run, migrate_closed,
}
use playback_service.Process.{
  Env, Hook, Boot, pure, ◌>>=◌, ◌>>◌, do_act, ask, log_line, lift, append, override,
}

pub record Config : Type 0 where
  pub dsn : String
  pub max_conns : ℤ
  pub min_conns : ℤ
  pub max_conn_life : ℤ
  pub max_conn_idle : ℤ
  pub conn_timeout : ℤ

-- The settings of the source over those of the DSN.
abbrev pub pool_config : Config → PoolConfig → PoolConfig
pool_config cfg c = record c {
  max_conns = override cfg.max_conns c.max_conns;
  min_conns = override cfg.min_conns c.min_conns;
  max_conn_lifetime = override cfg.max_conn_life c.max_conn_lifetime;
  max_conn_idle_time = override cfg.max_conn_idle c.max_conn_idle_time;
}

abbrev pub stop_pool : Env → Option Fault × Env
stop_pool = do log_line info "closing postgres pool" []; do_act pool_closed; pure none

abbrev pub pool_hook : Hook
pool_hook = record { on_start = none; on_stop = some stop_pool }

module _ (p : Platform) where
  abbrev pub pinged : PoolConfig → Option Fault → Boot → Option Fault × Boot
  pinged c (some e) = do lift (do_act pool_closed); pure (some (wrapped "ping postgres" e))
  pinged c none = do
    lift (log_line info "postgres connected" (("dsn_host", text c.host) ∷ []))
    append pool_hook
    pure none

  abbrev pub created : PoolConfig → Option Fault → Boot → Option Fault × Boot
  created c (some e) = pure (some (wrapped "create postgres pool" e))
  created c none = do
    lift (do_act (pool_opened c))
    failed ← lift (ask p.ping_pool)
    pinged c failed

  abbrev pub parsed : Config → Outcome PoolConfig → Boot → Option Fault × Boot
  parsed cfg (err e) = pure (some (wrapped "parse postgres DSN" e))
  parsed cfg (ok c) = do
    failed ← lift (ask (p.new_pool (pool_config cfg c)))
    created (pool_config cfg c) failed

  -- The error of `New`; the pool is the one of the process. The tracer of queries is left out.
  unfoldable pub new : Config → Boot → Option Fault × Boot
  new cfg = parsed cfg (p.parse_dsn cfg.dsn)

  unfoldable pub health_check : Env → Option Fault × Env
  health_check = ask p.ping_pool

  abbrev pub close_warning : String → Option Fault → Env → Unit {0} × Env
  close_warning message none = pure tt
  close_warning message (some e) = log_line warn message (("error", fault e) ∷ [])

  -- The deferred function.
  abbrev pub close_migrations : Env → Unit {0} × Env
  close_migrations = do
    errors ← ask p.close_migrate
    do_act migrate_closed
    close_warning "migrate source close error" errors.0
    close_warning "migrate database close error" errors.1

  abbrev pub applied : Env → Option Fault × Env
  applied = do
    version ← ask p.migrate_version
    log_line info "migrations applied"
        (("version", number (pos version.0)) ∷ ("dirty", flag version.1) ∷ [])
    pure none

  abbrev pub upped : Option Fault → Env → Option Fault × Env
  upped none = applied
  upped (some e) = if is e no_change then applied else pure (some (wrapped "run migrations" e))

  abbrev pub opened : Option Fault → Env → Option Fault × Env
  opened (some e) = pure (some (wrapped "init migrations" e))
  opened none = do
    do_act migrate_opened
    failed ← ask p.migrate_up
    do_act migrate_run
    result ← upped failed
    close_migrations
    pure result

  unfoldable pub run_migrations : (dsn migrations_path : String) → Env → Option Fault × Env
  run_migrations dsn migrations_path = do
    failed ← ask (p.new_migrate ("file://" <> migrations_path) dsn)
    opened failed
