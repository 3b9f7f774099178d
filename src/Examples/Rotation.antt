-- ===== src/Examples/Rotation.antt =====
-- The readiness probe of a service that starts, serves and is stopped.
use playback_service.Prelude.{false, ◌≡◌, ◌≢◌, refl, none, List, [], ◌∷◌, ◌++◌}
use playback_service.External.Memory.{memory}
use playback_service.Handler.{RequestCtx, new}
use playback_service.Validator.Plain.{plain}
use playback_service.Platform.{
  Act, consumer_started, ready_set, server_shutdown, writer_closed, consumer_canceled,
  reader_closed, client_closed, pool_closed, provider_closed,
}
use playback_service.Process.{Env}
use playback_service.Server.Lifecycle.{flag_after}
use playback_service.Server.Routes.{Shared}
use playback_service.Server.Served.{Endpoint, heartbeat_route, current_route, ready_route}
use playback_service.Server.Drain.{after, probed}
use playback_service.Main.{main}
use playback_service.Main.Shutdown.{stop-acts}
use playback_service.Main.Rotation.{readyz_drains}
use playback_service.Examples.Boot.{
  plain_platform, default_config, fresh, reversed, reversed-IsFx, booted,
}
use playback_service.Examples.Endpoints.{request, beat_body}
use playback_service.Examples.Served.{shared}

-- After the start hook of the consumer.
abbrev running_env : Env
running_env = record (main plain_platform default_config fresh).1.env {
  acts = (main plain_platform default_config fresh).1.env.acts ++ (consumer_started ∷ []);
}

-- What the stop has done when it has shut the server down, and what is left then.
abbrev part : List Act
part = ready_set false ∷ server_shutdown ∷ []

abbrev later : List Act
later =
    writer_closed ∷ consumer_canceled ∷ reader_closed ∷ client_closed ∷ pool_closed
    ∷ provider_closed ∷ []

abbrev before : List (Endpoint × RequestCtx memory.Bytes)
before = (current_route, request "ann" none) ∷ []

abbrev during : List (Endpoint × RequestCtx memory.Bytes)
during = (heartbeat_route, request "ann" beat_body) ∷ []

begun : part ≢ []
begun same = cc

readyz_drains_example :
    let running : Shared memory =
      after memory plain before (record shared { probes = flag_after running_env.acts new }) in
    let stopping : Shared memory =
      after memory plain during
        (record running { probes = flag_after (running_env.acts ++ part) new }) in
    (probed memory plain ready_route (request "" none) running ≡ 200)
    × (probed memory plain ready_route (request "" none) stopping ≡ 503)
unfolding reversed-IsFx
readyz_drains_example =
    readyz_drains plain_platform default_config reversed reversed-IsFx fresh running_env
      (consumer_started ∷ []) part later memory plain before during (request "" none) shared refl
      refl booted refl refl tt
      (stop-acts plain_platform default_config reversed reversed-IsFx fresh running_env refl booted
        tt)
      begun
