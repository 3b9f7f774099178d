-- ===== src/Middleware.antt =====
-- internal/middleware/middleware.go: the middlewares as functions on handlers. A handler may panic;
-- what it changed before stays changed. The state beside the context is what the process observes:
-- the counters of the metrics and the lines of the log.
pub mod Observed
pub mod Laws
pub mod RequestId
pub mod Ids
use mathlib.Core.List.{foldl, reverse}
use mathlib.Core.Option.{get_or}
use playback_service.Prelude.{
  ℕ, ◌+◌, String, ◌<>◌, Bool, false, Option, none, some, List, [], ◌∷◌, ◌++◌, ◌==◌, if◌then◌else◌,
  leb,
}
use playback_service.Handler.{RequestCtx, Response}
use playback_service.Middleware.Ids.{generate_id}
use playback_service.Middleware.Observed.{Span, Tracer, completed, recovered, Process}

-- How a handler ends: it returns, or it panics with a value.
pub data Ending : Type 0 where
  returned : Ending
  panicked : String → Ending

pub record State (Bytes W : Type 0) : Type 0 where
  pub ctx : RequestCtx Bytes
  pub process : Process
  -- What the handlers share.
  pub world : W

-- fasthttp.RequestHandler
abbrev pub RequestHandler : Type 0 → Type 0 → Type 0
RequestHandler Bytes W = State Bytes W → Ending × State Bytes W

abbrev pub Middleware : Type 0 → Type 0 → Type 0
Middleware Bytes W = RequestHandler Bytes W → RequestHandler Bytes W

abbrev pub request_id_header : String
request_id_header = "X-Request-Id"

abbrev pub request_id_key : String
request_id_key = "request_id"

abbrev pub otel_ctx_key : String
otel_ctx_key = "otel_ctx"

abbrev pub route_pattern_key : String
route_pattern_key = "route_pattern"

-- The pattern of a route that is set and not empty.
abbrev pub known_pattern : Option String → String
known_pattern none = "unknown"
known_pattern (some v) = if v == "" then "unknown" else v

module _ {Bytes : Type 0} where
  -- ctx.SetUserValue
  abbrev pub set_user_value : String → String → RequestCtx Bytes → RequestCtx Bytes
  set_user_value key v ctx = record ctx {
    user_value = λ k. if key == k then some v else ctx.user_value k;
  }

  -- ctx.Response.Header.Set
  abbrev pub set_header : String → String → RequestCtx Bytes → RequestCtx Bytes
  set_header name v ctx = record ctx {
    response = record ctx.response {
      headers = λ k. if name == k then v else ctx.response.headers k;
    };
  }

  abbrev pub get_request_id : RequestCtx Bytes → String
  get_request_id ctx = get_or (ctx.user_value request_id_key) ""

  -- The `Get` of a fasthttpCarrier over the headers of the request.
  abbrev pub carrier_get : RequestCtx Bytes → String → String
  carrier_get ctx key = ctx.header key

  abbrev pub parent_context : Process → RequestCtx Bytes → String
  parent_context process ctx = process.tracer.extract (carrier_get ctx)

  -- The context that `tracer.Start` returns for the request.
  abbrev pub span_started : Process → RequestCtx Bytes → String
  span_started process ctx =
      process.tracer.start process.started (parent_context process ctx)
        (ctx.method <> (" " <> ctx.path))

  abbrev pub span_context : Tracer → RequestCtx Bytes → String
  span_context tracer ctx = get_or (ctx.user_value otel_ctx_key) tracer.background

  abbrev pub route_pattern : RequestCtx Bytes → String
  route_pattern ctx = known_pattern (ctx.user_value route_pattern_key)

module _ {Bytes W : Type 0} where
  -- The code after `next(ctx)`, which a panic skips.
  abbrev pub after_return :
      (State Bytes W → State Bytes W) → Ending × State Bytes W → Ending × State Bytes W
  after_return f (returned, s) = (returned, f s)
  after_return f (panicked v, s) = (panicked v, s)

  -- The loop of `Chain`: from the last middleware to the first, each around the handler so far.
  unfoldable pub chain : List (Middleware Bytes W) → Middleware Bytes W
  chain mws next =
      foldl (λ (h : RequestHandler Bytes W) (m : Middleware Bytes W). m h) next (reverse mws)

  -- generateID, if the request has no id of its own.
  abbrev pub with_id : State Bytes W → String × Process
  with_id s =
      let id = s.ctx.header request_id_header in
      if id == ""
      then (
        generate_id (s.process.random s.process.drawn),
        record s.process { drawn = s.process.drawn + 1 },
      )
      else (id, s.process)

  unfoldable pub request_id : Middleware Bytes W
  request_id next s =
      let (id, process) = with_id s in
      next (record s {
        ctx = set_user_value request_id_key id (set_header request_id_header id s.ctx);
        process = process;
      })

  abbrev pub end_span : Span → State Bytes W → State Bytes W
  end_span span s = record s {
    process = record s.process { spans = s.process.spans ++ (span ∷ []) };
  }

  -- `defer span.End()` runs also where the handler panics, and the attributes are set only if it
  -- returns.
  abbrev pub finish_span : (parent name : String) → Ending × State Bytes W → Ending × State Bytes W
  finish_span parent name (returned, s) = (
    returned,
    end_span
        (record {
          parent = parent;
          name = name;
          http_status = some s.ctx.response.status;
          failed = leb 500 s.ctx.response.status;
        })
        s,
  )
  finish_span parent name (panicked v, s) = (
    panicked v,
    end_span (record { parent = parent; name = name; http_status = none; failed = false }) s,
  )

  unfoldable pub tracing : Middleware Bytes W
  tracing next s =
      finish_span (parent_context s.process s.ctx) (s.ctx.method <> (" " <> s.ctx.path)) (
        next (record s {
          ctx = set_user_value otel_ctx_key (span_started s.process s.ctx) s.ctx;
          process = record s.process { started = s.process.started + 1 };
        }))

  abbrev pub log_request : State Bytes W → State Bytes W
  log_request s = record s {
    process = record s.process {
      lines =
          s.process.lines
          ++ (completed s.ctx.method s.ctx.path s.ctx.response.status (get_request_id s.ctx)
                (s.process.tracer.trace_id (span_context s.process.tracer s.ctx))
              ∷ []);
    };
  }

  unfoldable pub logger : Middleware Bytes W
  logger next s = after_return log_request (next s)

  abbrev pub count_request : State Bytes W → State Bytes W
  count_request s = record s {
    process = record s.process {
      samples =
          s.process.samples
          ++ (record {
            method = s.ctx.method;
            pattern = route_pattern s.ctx;
            status = s.ctx.response.status;
          }
              ∷ []);
    };
  }

  unfoldable pub metrics : Middleware Bytes W
  metrics next s = after_return count_request (next s)

  -- ctx.Error(msg, status) is a parameter.
  module _ (error : String → ℕ → Response → Response) where
    abbrev pub recover : Ending × State Bytes W → Ending × State Bytes W
    recover (returned, s) = (returned, s)
    recover (panicked v, s) = (
      returned,
      record s {
        ctx = record s.ctx { response = error "Internal Server Error" 500 s.ctx.response };
        process = record s.process {
          lines = s.process.lines ++ (recovered v s.ctx.path (get_request_id s.ctx) ∷ []);
        };
      },
    )

    -- The span of the request has ended by then, so the code that marks it does nothing.
    unfoldable pub recoverer : Middleware Bytes W
    recoverer next s = recover (next s)
