-- ===== src/Examples/Requests.antt =====
-- The middlewares and the chain of the server.
use Prim.Native.Nat.{◌%◌}
use playback_service.Prelude.{
  ℕ, ◌+◌, ◌*◌, String, ◌≡◌, refl, none, some, ◌==◌, if◌then◌else◌, [], ◌∷◌, ◌++◌,
}
use playback_service.Handler.{Response, empty, text, set_status_code}
use playback_service.Middleware.{
  RequestHandler, State, panicked, chain, request_id, logger, metrics,
}
use playback_service.Middleware.Observed.{Tracer, Process}
use playback_service.Middleware.Ids.{hex_text}
use playback_service.Middleware.Laws.{chain_order}
use playback_service.Server.{server_handler}
use playback_service.Server.Requests.{IsError, entered, Survived, server_handler_outcome}

-- A tracer that names a context by its trace, which a span takes from its parent.
abbrev tracer : Tracer
tracer = record {
  background = "";
  extract = λ get. get "traceparent";
  start = λ n parent name. if parent == "" then "fresh" else parent;
  trace_id = λ c. if c == "" then none else some c;
}

abbrev pub idle_process : Process
idle_process = record {
  tracer = tracer;
  started = 0;
  samples = [];
  spans = [];
  lines = [];
  random = λ n i. (16 * n + i) % 256;
  drawn = 0;
}

abbrev pub error : String → ℕ → Response → Response
error message status r = record {
  status = status;
  content_type = "text/plain; charset=utf-8";
  body = text message;
  headers = λ k. "";
}

pub error-IsError : IsError error
error-IsError = record { status = λ m n r. refl; body = λ m n r. refl; headers = λ m n r k. refl }

-- A router whose handler sets a status and then panics.
abbrev broken : RequestHandler String (Unit {0})
broken s = (panicked "index out of range", record s { ctx = set_status_code 201 s.ctx })

abbrev request : State String (Unit {0})
request = record {
  ctx = record {
    method = "GET";
    path = "/api/v1/sessions/current";
    header = λ k. "";
    post_body = "";
    user_value = λ k. none;
    response = record { status = 200; content_type = ""; body = empty; headers = λ k. "" };
  };
  process = idle_process;
  world = tt;
}

chain_order_example :
    (chain (request_id ∷ metrics ∷ []) broken ≡ request_id (chain (metrics ∷ []) broken))
    × (chain ((metrics ∷ []) ++ (logger ∷ [])) broken
        ≡ chain (metrics ∷ []) (chain (logger ∷ []) broken))
chain_order_example = chain_order request_id (metrics ∷ []) (logger ∷ []) broken

server_handler_outcome_example :
    Survived (broken (entered request)) (server_handler error broken request)
server_handler_outcome_example = server_handler_outcome error error-IsError broken request

-- A request without an id, as the first and as the second that the process sees.
abbrev nameless : State String (Unit {0})
nameless = record request { ctx = record request.ctx { header = λ k. "" } }

abbrev nameless_next : State String (Unit {0})
nameless_next = record nameless { process = record nameless.process { drawn = 1 } }

id_text : hex_text (0 ∷ 171 ∷ 255 ∷ []) ≡ "00abff"
id_text = refl
