-- ===== src/Examples/Served.antt =====
-- Requests through the whole server, with a router that takes the first route that matches.
use playback_service.Prelude.{refl, ap, Option, none, some, List}
use playback_service.External.Memory.{memory}
use playback_service.Handler.{set_status_code, new}
use playback_service.Validator.Plain.{plain}
use playback_service.Middleware.{RequestHandler, State, returned}
use playback_service.Server.Routes.{Shared, Route, IsRouter, find, serve}
use playback_service.Server.Served.{Served, serve-Served, heartbeat_route}
use playback_service.Examples.Worlds.{healthy}
use playback_service.Examples.Requests.{idle_process, error, error-IsError}
use playback_service.Examples.Endpoints.{request, beat_body}

abbrev or_missing : {Bytes W : Type 0} → Option (RequestHandler Bytes W) → RequestHandler Bytes W
or_missing none s = (returned, record s { ctx = set_status_code 404 s.ctx })
or_missing (some h) s = h s

abbrev first_match : {Bytes W : Type 0} → List (Route Bytes W) → RequestHandler Bytes W
first_match rs s = or_missing (find s.ctx.method s.ctx.path rs) s

first_match-IsRouter : {Bytes W : Type 0} → IsRouter {Bytes = Bytes} {W = W} first_match
first_match-IsRouter = record { finds = λ rs h s one found. ap (λ o. or_missing o s) found }

abbrev pub shared : Shared memory
shared = record { probes = new; world = healthy }

-- A handler of a library.
abbrev silent : RequestHandler memory.Bytes (Shared memory)
silent s = (returned, s)

abbrev beat_request : State memory.Bytes (Shared memory)
beat_request = record { ctx = request "ann" beat_body; process = idle_process; world = shared }

serve-Served_example :
    Served memory plain heartbeat_route beat_request
      (serve memory plain silent silent first_match error beat_request)
serve-Served_example =
    serve-Served memory plain silent silent first_match first_match-IsRouter error error-IsError
      heartbeat_route beat_request refl refl
