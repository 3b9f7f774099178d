-- ===== src/Redis.antt =====
-- internal/redis/redis.go: the client.
pub mod Client
use playback_service.Prelude.{String, Option, none, some, [], ◌∷◌, ℤ, pos}
use playback_service.Apperror.{Fault, wrapped}
use playback_service.World.{info, text}
use playback_service.Platform.{RedisOptions, Platform, client_opened, client_closed}
use playback_service.Process.{
  Env, Hook, Boot, pure, ◌>>=◌, ◌>>◌, do_act, ask, log_line, lift, append, override,
}

pub record Config : Type 0 where
  pub addr : String
  pub password : String
  pub db : ℤ
  pub pool_size : ℤ

abbrev pub options : Config → RedisOptions
options cfg = record {
  addr = cfg.addr;
  password = cfg.password;
  db = cfg.db;
  pool_size = override cfg.pool_size (pos 0);
}

module _ (p : Platform) where
  abbrev pub stop_client : Env → Option Fault × Env
  stop_client = do
    log_line info "closing redis connection" []
    failed ← ask p.close_client
    do_act client_closed
    pure failed

  abbrev pub client_hook : Hook
  client_hook = record { on_start = none; on_stop = some stop_client }

  abbrev pub pinged : Config → Option Fault → Boot → Option Fault × Boot
  pinged cfg (some e) = pure (some (wrapped "ping redis" e))
  pinged cfg none = do
    lift (log_line info "redis connected" (("addr", text cfg.addr) ∷ []))
    append client_hook
    pure none

  abbrev pub metered : Config → Option Fault → Boot → Option Fault × Boot
  metered cfg (some e) = pure (some (wrapped "redis otel metrics" e))
  metered cfg none = do failed ← lift (ask p.ping_client); pinged cfg failed

  abbrev pub traced : Config → Option Fault → Boot → Option Fault × Boot
  traced cfg (some e) = pure (some (wrapped "redis otel tracing" e))
  traced cfg none = do failed ← lift (ask p.instrument_metrics); metered cfg failed

  -- The error of `New`; the client is the one of the process.
  unfoldable pub new : Config → Boot → Option Fault × Boot
  new cfg = do
    lift (do_act (client_opened (options cfg)))
    failed ← lift (ask p.instrument_tracing)
    traced cfg failed

  unfoldable pub health_check : Env → Option Fault × Env
  health_check = ask p.ping_client
