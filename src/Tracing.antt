-- ===== src/Tracing.antt =====
-- internal/tracing/tracing.go: the tracer provider of the process.
use playback_service.Prelude.{String, Option, none, some, [], ◌∷◌, not, if◌then◌else◌}
use playback_service.Apperror.{Fault, wrapped}
use playback_service.World.{info, text}
use playback_service.Platform.{Platform, provider_set, provider_closed}
use playback_service.Process.{
  Env, Hook, Boot, pure, ◌>>=◌, ◌>>◌, do_act, ask, log_line, lift, append,
}
use playback_service.Config.{Config}

module _ (p : Platform) where
  abbrev pub exported : String → Option Fault → Env → Option Fault × Env
  exported service_name (some e) = pure (some (wrapped "create exporter" e))
  exported service_name none = do do_act (provider_set service_name); pure none

  abbrev pub dialed : (service_name endpoint : String) → Option Fault → Env → Option Fault × Env
  dialed service_name endpoint (some e) = pure (some (wrapped "grpc dial" e))
  dialed service_name endpoint none = exported service_name (p.new_exporter endpoint)

  abbrev pub merged : (service_name endpoint : String) → Option Fault → Env → Option Fault × Env
  merged service_name endpoint (some e) = pure (some (wrapped "create resource" e))
  merged service_name endpoint none = dialed service_name endpoint (p.new_grpc_client endpoint)

  -- The error of `setup`. The propagator that it sets is left out.
  unfoldable pub setup : (service_name endpoint : String) → Env → Option Fault × Env
  setup service_name endpoint = merged service_name endpoint (p.merge_resource service_name)

  abbrev pub stop_provider : Env → Option Fault × Env
  stop_provider = do
    log_line info "shutting down tracer provider" []
    failed ← ask p.close_provider
    do_act provider_closed
    pure failed

  abbrev pub provider_hook : Hook
  provider_hook = record { on_start = none; on_stop = some stop_provider }

  abbrev pub installed : Config → Option Fault → Boot → Option Fault × Boot
  installed cfg (some e) = pure (some (wrapped "init tracing" e))
  installed cfg none = do
    lift (log_line info "tracing enabled" (("otlp_endpoint", text cfg.otlp_endpoint) ∷ []))
    append provider_hook
    pure none

  abbrev pub enabled : Config → Boot → Option Fault × Boot
  enabled cfg = do failed ← lift (setup cfg.service_name cfg.otlp_endpoint); installed cfg failed

  abbrev pub disabled : Boot → Option Fault × Boot
  disabled = do lift (log_line info "tracing disabled" []); pure none

  unfoldable pub register : Config → Boot → Option Fault × Boot
  register cfg = if not cfg.tracing_enabled then disabled else enabled cfg
