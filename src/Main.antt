-- ===== src/Main.antt =====
-- cmd/service/main.go: the order in which the service is put together, and its life cycle. The library
-- fx runs the invoked functions in their order, and a constructor, once, where its result is first
-- needed, with the parameters of a function from the left.
pub mod Startup
pub mod Shutdown
pub mod Rotation
use mathlib.Core.List.{reverse}
use playback_service.Prelude.{◌≡◌, Option, none, some, List, [], ◌∷◌}
use playback_service.Apperror.{Fault}
use playback_service.Platform.{Platform}
use playback_service.Process.{Env, Hook, Boot, pure, ◌>>=◌, ◌>>◌, lift}
use playback_service.Config.{Config}
use playback_service.Postgres
use playback_service.Redis
use playback_service.Kafka.Settings.{new_consumer, new_producer}
use playback_service.Tracing
use playback_service.Session.Lifecycle.{register_consumer}
use playback_service.Server.Lifecycle

-- The first error ends the start-up.
abbrev pub unless_failed : Option Fault → (Boot → Option Fault × Boot) → Boot → Option Fault × Boot
unless_failed (some e) next = pure (some e)
unless_failed none next = next

module _ (p : Platform) (cfg : Config) where
  -- server.Register, and what only it needs: handler, service and producer.
  abbrev pub with_server : Boot → Option Fault × Boot
  with_server = do new_producer p cfg.kafka; Lifecycle.register p cfg; pure none

  -- session.RegisterConsumer, and what it needs: the repository with its pool and its client.
  abbrev pub with_consumer : Boot → Option Fault × Boot
  with_consumer = do
    failed ← Postgres.new p cfg.postgres
    unless_failed failed (do
      refused ← Redis.new p cfg.redis
      unless_failed refused (do new_consumer cfg.kafka_consumer; register_consumer p; with_server))

  unfoldable pub main : Boot → Option Fault × Boot
  main = do
    failed ← Tracing.register p cfg
    unless_failed failed (do
      refused ← lift (Postgres.run_migrations p cfg.postgres.dsn "./migrations")
      unless_failed refused with_consumer)

-- The stop hooks in the order of a list; an error of one does not keep the next from running.
abbrev pub stop_hook : Option (Env → Option Fault × Env) → Env → Env
stop_hook none e = e
stop_hook (some f) e = (f e).1

abbrev pub stop_all : List Hook → Env → Env
stop_all [] e = e
stop_all (h ∷ hs) e = stop_all hs (stop_hook h.on_stop e)

-- What the source relies on of fx: once all start hooks have run, the stop hooks run from the last to
-- the first that was appended, while `in_time` holds: the time-out of the stop has not passed when the
-- last of them begins.
pub record IsFx (stop : List Hook → Env → Env) : Type 1 where
  pub in_time : List Hook → Env → Type 0
  pub reverses : (hs : List Hook) (e : Env) → in_time hs e → stop hs e ≡ stop_all (reverse hs) e
