-- ===== src/Server/Requests.antt =====
-- What a request leaves behind, whether its handler returns or panics.
use mathlib.Core.Path.{subst}
use playback_service.Prelude.{ℕ, ◌+◌, String, ◌<>◌, ◌≡◌, refl, sym, [], ◌∷◌, ◌++◌}
use playback_service.Handler.{Response, text}
use playback_service.Middleware.{
  RequestHandler, State, Ending, returned, panicked, set_user_value, set_header, request_id_header,
  request_id_key, otel_ctx_key, with_id, after_return, log_request, count_request, finish_span,
  recover, recoverer, request_id, tracing, metrics, logger, get_request_id, route_pattern,
  parent_context, span_started, span_context,
}
use playback_service.Middleware.Observed.{completed, recovered}
use playback_service.Server.{server_handler}

-- What the source relies on of `ctx.Error`: it resets the response and sets its status and body.
pub record IsError (error : String → ℕ → Response → Response) : Type 0 where
  pub status : (m : String) (n : ℕ) (r : Response) → (error m n r).status ≡ n
  pub body : (m : String) (n : ℕ) (r : Response) → (error m n r).body ≡ text m
  pub headers : (m : String) (n : ℕ) (r : Response) (k : String) → (error m n r).headers k ≡ ""

module _ {Bytes W : Type 0} where
  -- The state in which the router gets a request.
  abbrev pub entered : State Bytes W → State Bytes W
  entered s =
      let (id, process) = with_id s in
      record s {
        ctx =
            set_user_value otel_ctx_key (span_started process s.ctx)
              (set_user_value request_id_key id (set_header request_id_header id s.ctx));
        process = record process { started = process.started + 1 };
      }

  -- What the middlewares do after the router, which ended so.
  abbrev finished :
      (String → ℕ → Response → Response)
      → (parent name : String) → Ending × State Bytes W
      → Ending × State Bytes W
  finished error parent name r =
      recover error
        (finish_span parent name (after_return count_request (after_return log_request r)))

  server_handler-finished :
      (error : String → ℕ → Response → Response) (router : RequestHandler Bytes W)
      (s : State Bytes W)
      → server_handler error router s
        ≡ finished error
            (parent_context (with_id s).1 s.ctx)
            (s.ctx.method <> (" " <> s.ctx.path))
            (router (entered s))
  unfolding server_handler recoverer request_id tracing metrics logger
  server_handler-finished error router s = refl

  -- A request whose handler returned, in the state that it left.
  pub record Counted (left : State Bytes W) (r : Ending × State Bytes W) : Type 0 where
    pub ending : r.0 ≡ returned
    pub ctx : r.1.ctx ≡ left.ctx
    pub world : r.1.world ≡ left.world
    pub samples :
        r.1.process.samples
        ≡ left.process.samples
          ++ (record {
            method = left.ctx.method;
            pattern = route_pattern left.ctx;
            status = left.ctx.response.status;
          }
              ∷ [])
    pub lines :
        r.1.process.lines
        ≡ left.process.lines
          ++ (completed left.ctx.method left.ctx.path left.ctx.response.status
                (get_request_id left.ctx)
                (left.process.tracer.trace_id (span_context left.process.tracer left.ctx))
              ∷ [])

  -- A request whose handler panicked with the value `v`, in the state that it left.
  pub record Recovered (v : String) (left : State Bytes W) (r : Ending × State Bytes W)
      : Type 0 where
    pub ending : r.0 ≡ returned
    pub status : r.1.ctx.response.status ≡ 500
    pub body : r.1.ctx.response.body ≡ text "Internal Server Error"
    pub header : r.1.ctx.response.headers request_id_header ≡ ""
    pub world : r.1.world ≡ left.world
    pub samples : r.1.process.samples ≡ left.process.samples
    pub lines :
        r.1.process.lines
        ≡ left.process.lines ++ (recovered v left.ctx.path (get_request_id left.ctx) ∷ [])

  -- What becomes of a request, by how the router ended and the state that it left.
  abbrev pub Survived : Ending × State Bytes W → Ending × State Bytes W → Type 0
  Survived (returned, left) after = Counted left after
  Survived (panicked v, left) after = Recovered v left after

  finished-Survived :
      (error : String → ℕ → Response → Response) (lawful : IsError error) (parent name : String)
      (r : Ending × State Bytes W)
      → Survived r (finished error parent name r)
  finished-Survived error lawful parent name (returned, left) = record {
    ending = refl;
    ctx = refl;
    world = refl;
    samples = refl;
    lines = refl;
  }
  finished-Survived error lawful parent name (panicked v, left) = record {
    ending = refl;
    status = lawful.status _ _ _;
    body = lawful.body _ _ _;
    header = lawful.headers _ _ _ _;
    world = refl;
    samples = refl;
    lines = refl;
  }

  -- The server survives every request. One whose handler returns keeps its response, and is
  -- counted and logged once, with its method, status, request id and trace id. One whose handler panics is
  -- answered with 500 and logged as a panic; it loses its request id header and is not counted.
  -- This relies on what `ctx.Error` does to a response.
  pub server_handler_outcome :
      (error : String → ℕ → Response → Response) (lawful : IsError error)
      (router : RequestHandler Bytes W) (s : State Bytes W)
      → Survived (router (entered s)) (server_handler error router s)
  server_handler_outcome error lawful router s =
      subst (λ r. Survived (router (entered s)) r) (sym (server_handler-finished error router s))
        (finished-Survived error lawful (parent_context (with_id s).1 s.ctx)
          (s.ctx.method <> (" " <> s.ctx.path)) (router (entered s)))
