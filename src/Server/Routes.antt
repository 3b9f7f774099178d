-- ===== src/Server/Routes.antt =====
-- internal/server/server.go: the routes. The router, and the handlers of the metrics and of swagger,
-- are libraries: parameters.
use playback_service.Prelude.{
  ℕ, String, ◌≡◌, Bool, true, false, Option, none, some, List, [], ◌∷◌, ◌==◌, if◌then◌else◌,
}
use playback_service.External.{External}
use playback_service.World.{World, M}
use playback_service.Handler.{Response, RequestCtx, Handler, healthz, readyz, example}
use playback_service.Validator.{Field, Verdict}
use playback_service.Session.Handler.{start, get_current, heartbeat, pause, resume}
use playback_service.Middleware.{RequestHandler, State, returned}
use playback_service.Server.{with_route, server_handler}

-- What the handlers share: the handler of the probes, and the world of the sessions.
pub record Shared (x : External) : Type 0 where
  pub probes : Handler
  pub world : World x

-- A call of `r.GET`, `r.POST` or `r.PUT`.
pub record Route (Bytes W : Type 0) : Type 0 where
  pub method : String
  pub path : String
  pub handler : RequestHandler Bytes W

abbrev pub matches : {Bytes W : Type 0} → String → String → Route Bytes W → Bool
matches method path r = if r.method == method then r.path == path else false

abbrev pub find :
    {Bytes W : Type 0} → String → String → List (Route Bytes W) → Option (RequestHandler Bytes W)
find method path [] = none
find method path (r ∷ rs) = if matches method path r then some r.handler else find method path rs

-- No two routes have the same method and path.
abbrev pub distinct : {Bytes W : Type 0} → List (Route Bytes W) → Bool
distinct [] = true
distinct (r ∷ rs) = elim (find r.method r.path rs) [ some h ↦ false | none ↦ distinct rs ]

-- What the source relies on of the router: a request whose method and path are those of a route goes
-- to its handler. A path is one that fasthttp has nothing to decode in.
pub record IsRouter {Bytes W : Type 0} (router : List (Route Bytes W) → RequestHandler Bytes W)
    : Type 0 where
  pub finds :
      (rs : List (Route Bytes W)) (h : RequestHandler Bytes W) (s : State Bytes W)
      → distinct rs ≡ true
      → find s.ctx.method s.ctx.path rs ≡ some h
      → router rs s ≡ h s

module _ (x : External) where
  -- A handler that uses nothing but the context.
  abbrev pub probe : (RequestCtx x.Bytes → RequestCtx x.Bytes) → RequestHandler x.Bytes (Shared x)
  probe f s = (returned, record s { ctx = f s.ctx })

  abbrev pub readiness : RequestHandler x.Bytes (Shared x)
  readiness s = (returned, record s { ctx = readyz s.world.probes s.ctx })

  -- An endpoint of the sessions; it returns, whatever the services answer.
  abbrev pub endpoint :
      (RequestCtx x.Bytes → M x (RequestCtx x.Bytes)) → RequestHandler x.Bytes (Shared x)
  endpoint f s =
      let (ctx, world) = f s.ctx s.world.world in
      (returned, record s { ctx = ctx; world = record s.world { world = world } })

  module _ (struct : List Field → Verdict)
      (metrics swagger : RequestHandler x.Bytes (Shared x)) where
    abbrev pub routes : List (Route x.Bytes (Shared x))
    routes =
        record {
          method = "GET";
          path = "/healthz";
          handler = with_route "/healthz" (probe healthz);
        }
        ∷ record { method = "GET"; path = "/readyz"; handler = with_route "/readyz" readiness }
        ∷ record { method = "GET"; path = "/metrics"; handler = with_route "/metrics" metrics }
        ∷ record {
          method = "GET";
          path = "/api/v1/example";
          handler = with_route "/api/v1/example" (probe example);
        }
        ∷ record {
          method = "GET";
          path = "/swagger/{filepath:*}";
          handler = with_route "/swagger" swagger;
        }
        ∷ record {
          method = "POST";
          path = "/api/v1/sessions";
          handler = with_route "/api/v1/sessions" (endpoint (start x struct));
        }
        ∷ record {
          method = "GET";
          path = "/api/v1/sessions/current";
          handler = with_route "/api/v1/sessions/current" (endpoint (get_current x struct));
        }
        ∷ record {
          method = "PUT";
          path = "/api/v1/sessions/heartbeat";
          handler = with_route "/api/v1/sessions/heartbeat" (endpoint (heartbeat x struct));
        }
        ∷ record {
          method = "PUT";
          path = "/api/v1/sessions/pause";
          handler = with_route "/api/v1/sessions/pause" (endpoint (pause x struct));
        }
        ∷ record {
          method = "PUT";
          path = "/api/v1/sessions/resume";
          handler = with_route "/api/v1/sessions/resume" (endpoint (resume x struct));
        }
        ∷ []

    -- The handler of the server that `Register` makes.
    unfoldable pub serve :
        (List (Route x.Bytes (Shared x)) → RequestHandler x.Bytes (Shared x))
        → (String → ℕ → Response → Response)
        → RequestHandler x.Bytes (Shared x)
    serve router error = server_handler error (router routes)
