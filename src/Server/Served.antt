-- ===== src/Server/Served.antt =====
-- A request, from the server's handler through the router to its endpoint and back.
use mathlib.Core.Option.{get_or}
use mathlib.Core.Path.{subst}
use playback_service.Prelude.{ℕ, String, ◌≡◌, refl, ap, ◌∙◌, some, List, [], ◌∷◌, ◌++◌, true}
use playback_service.External.{External}
use playback_service.Handler.{Response, RequestCtx, healthz, readyz, example}
use playback_service.Handler.Responds.{
  Responds, healthz-Responds, example-Responds, readyz-Responds,
}
use playback_service.Validator.{Field, Verdict}
use playback_service.Session.Handler.{start, get_current, heartbeat, pause, resume}
use playback_service.Session.Handler.Responds.{
  start-Responds, get_current-Responds, heartbeat-Responds, pause-Responds, resume-Responds,
}
use playback_service.Middleware.{
  RequestHandler, State, Ending, returned, request_id_header, with_id, set_user_value, span_started,
  span_context, otel_ctx_key, known_pattern, request_id_key, route_pattern_key,
}
use playback_service.Middleware.RequestId.{with_id-samples, with_id-lines, with_id-trace}
use playback_service.Middleware.Observed.{completed}
use playback_service.Server.{with_route, server_handler}
use playback_service.Server.Requests.{IsError, entered, Survived, Counted, server_handler_outcome}
use playback_service.Server.Routes.{Shared, Route, IsRouter, find, distinct, routes, serve}

-- The routes that the service itself handles.
pub data Endpoint : Type 0 where
  health_route ready_route example_route : Endpoint
  start_route current_route heartbeat_route pause_route resume_route : Endpoint

abbrev pub method : Endpoint → String
method health_route = "GET"
method ready_route = "GET"
method example_route = "GET"
method start_route = "POST"
method current_route = "GET"
method heartbeat_route = "PUT"
method pause_route = "PUT"
method resume_route = "PUT"

abbrev pub path : Endpoint → String
path health_route = "/healthz"
path ready_route = "/readyz"
path example_route = "/api/v1/example"
path start_route = "/api/v1/sessions"
path current_route = "/api/v1/sessions/current"
path heartbeat_route = "/api/v1/sessions/heartbeat"
path pause_route = "/api/v1/sessions/pause"
path resume_route = "/api/v1/sessions/resume"

module _ (x : External) (struct : List Field → Verdict) where
  -- What an endpoint does with a request context and what the handlers share.
  abbrev pub handle : Endpoint → RequestCtx x.Bytes → Shared x → RequestCtx x.Bytes × Shared x
  handle health_route ctx sh = (healthz ctx, sh)
  handle ready_route ctx sh = (readyz sh.probes ctx, sh)
  handle example_route ctx sh = (example ctx, sh)
  handle start_route ctx sh =
      let (c, w) = start x struct ctx sh.world in (c, record sh { world = w })
  handle current_route ctx sh =
      let (c, w) = get_current x struct ctx sh.world in (c, record sh { world = w })
  handle heartbeat_route ctx sh =
      let (c, w) = heartbeat x struct ctx sh.world in (c, record sh { world = w })
  handle pause_route ctx sh =
      let (c, w) = pause x struct ctx sh.world in (c, record sh { world = w })
  handle resume_route ctx sh =
      let (c, w) = resume x struct ctx sh.world in (c, record sh { world = w })

  handle-Responds :
      (e : Endpoint) (ctx : RequestCtx x.Bytes) (sh : Shared x) → Responds ctx (handle e ctx sh).0
  handle-Responds health_route ctx sh = healthz-Responds ctx
  handle-Responds ready_route ctx sh = readyz-Responds ctx sh.probes
  handle-Responds example_route ctx sh = example-Responds ctx
  handle-Responds start_route ctx sh = start-Responds x struct ctx sh.world
  handle-Responds current_route ctx sh = get_current-Responds x struct ctx sh.world
  handle-Responds heartbeat_route ctx sh = heartbeat-Responds x struct ctx sh.world
  handle-Responds pause_route ctx sh = pause-Responds x struct ctx sh.world
  handle-Responds resume_route ctx sh = resume-Responds x struct ctx sh.world

  -- The handler of a route of the service.
  abbrev routed : Endpoint → RequestHandler x.Bytes (Shared x)
  routed e =
      with_route (path e) λ s.
        let (ctx, sh) = handle e s.ctx s.world in (returned, record s { ctx = ctx; world = sh })

  module _ (metrics swagger : RequestHandler x.Bytes (Shared x)) where
    routes-distinct : distinct (routes x struct metrics swagger) ≡ true
    routes-distinct = refl

    find-routed :
        (e : Endpoint)
        → find (method e) (path e) (routes x struct metrics swagger) ≡ some (routed e)
    find-routed health_route = refl
    find-routed ready_route = refl
    find-routed example_route = refl
    find-routed start_route = refl
    find-routed current_route = refl
    find-routed heartbeat_route = refl
    find-routed pause_route = refl
    find-routed resume_route = refl

known_pattern-path : (e : Endpoint) → known_pattern (some (path e)) ≡ path e
known_pattern-path health_route = refl
known_pattern-path ready_route = refl
known_pattern-path example_route = refl
known_pattern-path start_route = refl
known_pattern-path current_route = refl
known_pattern-path heartbeat_route = refl
known_pattern-path pause_route = refl
known_pattern-path resume_route = refl

module _ (x : External) (struct : List Field → Verdict) (e : Endpoint)
    (s : State x.Bytes (Shared x)) where
  -- What the endpoint makes of the request: its context with the id and the pattern.
  abbrev pub handled : RequestCtx x.Bytes × Shared x
  handled = handle x struct e (set_user_value route_pattern_key (path e) (entered s).ctx) s.world

  -- The request was answered by the endpoint, counted and logged.
  pub record Served (r : Ending × State x.Bytes (Shared x)) : Type 0 where
    pub ending : r.0 ≡ returned
    pub response : r.1.ctx.response ≡ handled.0.response
    pub world : r.1.world ≡ handled.1
    pub header : r.1.ctx.response.headers request_id_header ≡ (with_id s).0
    pub samples :
        r.1.process.samples
        ≡ s.process.samples
          ++ (record { method = method e; pattern = path e; status = handled.0.response.status }
              ∷ [])
    pub lines :
        r.1.process.lines
        ≡ s.process.lines
          ++ (completed
                (method e)
                (path e)
                handled.0.response.status
                (with_id s).0
                (s.process.tracer.trace_id (span_started s.process s.ctx))
              ∷ [])

  Counted-Served :
      (r : Ending × State x.Bytes (Shared x))
      → s.ctx.method ≡ method e
      → s.ctx.path ≡ path e
      → Counted (routed x struct e (entered s)).1 r
      → Served r
  unfolding with_route
  Counted-Served r as_method as_path c =
      let ctx = set_user_value route_pattern_key (path e) (entered s).ctx in
      let left = handle x struct e ctx s.world in
      let only = handle-Responds x struct e ctx s.world in
      let as_before : left.0.method ≡ method e = only.method ∙ as_method in
      let as_asked : left.0.path ≡ path e = only.path ∙ as_path in
      let labelled : known_pattern (left.0.user_value route_pattern_key) ≡ path e =
        ap (λ uv. known_pattern (uv route_pattern_key)) only.user_value ∙ known_pattern-path e in
      let named : get_or (left.0.user_value request_id_key) "" ≡ (with_id s).0 =
        ap (λ uv. get_or (uv request_id_key) "") only.user_value in
      let tracer = (with_id s).1.tracer in
      let traced : tracer.trace_id (span_context tracer left.0)
          ≡ s.process.tracer.trace_id (span_started s.process s.ctx) =
        ap (λ uv. tracer.trace_id (get_or (uv otel_ctx_key) tracer.background)) only.user_value
        ∙ with_id-trace s in
      record {
        ending = c.ending;
        response = ap (λ (k : RequestCtx x.Bytes). k.response) c.ctx;
        world = c.world;
        header =
            ap (λ (k : RequestCtx x.Bytes). k.response.headers request_id_header) c.ctx
            ∙ ap (λ hs. hs request_id_header) only.headers;
        samples = c.samples ∙ cc (as_before, labelled, with_id-samples s);
        lines = c.lines ∙ cc (as_before, as_asked, named, traced, with_id-lines s);
      }

module _ (x : External) (struct : List Field → Verdict)
    (metrics swagger : RequestHandler x.Bytes (Shared x)) where
  -- A request to the service goes through. One that has the method and the path of an endpoint is
  -- answered with the response of this endpoint, which also changes what it changes of the shared
  -- state; it is counted once, under the pattern of the route and the status of the response, and
  -- logged once; and the response carries the id of the request, or a fresh one, which the line of
  -- the log names too, with the trace of the request's span, started under the context that the
  -- propagator extracts from its headers. This relies on the router, and on what `ctx.Error` does to a response.
  pub serve-Served :
      (router : List (Route x.Bytes (Shared x)) → RequestHandler x.Bytes (Shared x))
      (routing : IsRouter router) (error : String → ℕ → Response → Response)
      (lawful : IsError error) (e : Endpoint) (s : State x.Bytes (Shared x))
      → s.ctx.method ≡ method e
      → s.ctx.path ≡ path e
      → Served x struct e s (serve x struct metrics swagger router error s)
  unfolding serve with_route
  serve-Served router routing error lawful e s as_method as_path =
      let handler = router (routes x struct metrics swagger) in
      let found : find s.ctx.method s.ctx.path (routes x struct metrics swagger)
          ≡ some (routed x struct e) =
        rw (as_method, as_path) (find-routed x struct metrics swagger e) in
      let gone : handler (entered s) ≡ routed x struct e (entered s) =
        routing.finds _ _ (entered s) (routes-distinct x struct metrics swagger) found in
      let outcome = server_handler_outcome error lawful handler s in
      Counted-Served x struct e s _ as_method as_path
        (subst (λ r. Survived r (server_handler error handler s)) gone outcome)
