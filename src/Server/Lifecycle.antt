-- ===== src/Server/Lifecycle.antt =====
-- internal/server/server.go: the settings of the server, and its hooks.
use playback_service.Prelude.{String, ◌<>◌, ◌*◌, false, Option, none, some, List, [], ◌∷◌, pos}
use playback_service.Apperror.{Fault, wrapped}
use playback_service.Handler.{Handler, set_ready}
use playback_service.World.{info, text}
use playback_service.Platform.{
  Act, HttpServer, Race, finished, interrupted, Platform, listening, serving, ready_set,
  server_shutdown,
}
use playback_service.Process.{Env, Hook, Boot, pure, ◌>>=◌, ◌>>◌, do_act, ask, log_line, append}
use playback_service.Config.{Config}

abbrev pub http_server : Config → HttpServer
http_server cfg = record {
  name = cfg.service_name;
  read_timeout = pos 10000000000;
  write_timeout = pos 10000000000;
  idle_timeout = pos 120000000000;
  max_request_body_size = 4 * 1024 * 1024;
}

-- The flag of the handler that `Register` is given, after these acts.
abbrev pub flag_after : List Act → Handler → Handler
flag_after [] h = h
flag_after (ready_set ready ∷ acts) h = flag_after acts (set_ready ready h)
flag_after (_ ∷ acts) h = flag_after acts h

abbrev pub addr : Config → String
addr cfg = ":" <> cfg.http_port

module _ (p : Platform) where
  -- The goroutine of `Serve` and the error that it may log are left out.
  abbrev pub listened : Config → Option Fault → Env → Option Fault × Env
  listened cfg (some e) = pure (some (wrapped ("listen " <> addr cfg) e))
  listened cfg none = do
    do_act (listening (addr cfg))
    log_line info "http server listening" (("addr", text (addr cfg)) ∷ [])
    do_act (serving (http_server cfg))
    pure none

  abbrev pub start_server : Config → Env → Option Fault × Env
  start_server cfg = do failed ← ask (p.listen (addr cfg)); listened cfg failed

  -- The `select` of the stop hook; `server_shutdown` is the call of `srv.Shutdown`.
  abbrev pub stopped : Race → Option Fault
  stopped (finished e) = e
  stopped (interrupted e) = some (wrapped "shutdown interrupted" e)

  abbrev pub stop_server : Env → Option Fault × Env
  stop_server = do
    do_act (ready_set false)
    log_line info "shutting down http server" []
    do_act server_shutdown
    race ← ask p.shutdown
    pure (stopped race)

  abbrev pub server_hook : Config → Hook
  server_hook cfg = record { on_start = some (start_server cfg); on_stop = some stop_server }

  unfoldable pub register : Config → Boot → Unit {0} × Boot
  register cfg = append (server_hook cfg)
