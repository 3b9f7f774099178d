-- ===== src/Middleware/Observed.antt =====
-- internal/middleware/middleware.go: what the process observes of requests, and OpenTelemetry's globals.
use playback_service.Prelude.{ℕ, String, Bool, Option, List}

-- A completed request in the counter, with its labels: method, route pattern and status.
pub record Sample : Type 0 where
  pub method : String
  pub pattern : String
  pub status : ℕ

-- A server span that has ended: its parent, its name, and the status that the handler set.
pub record Span : Type 0 where
  pub parent : String
  pub name : String
  pub http_status : Option ℕ
  pub failed : Bool

-- A line "request completed", with the trace id if there is one, or "panic recovered" with the value
-- of the panic. Durations, the peer's address and the stack are left out.
pub data Line : Type 0 where
  completed :
      (method path : String) (status : ℕ) (request_id : String) (trace_id : Option String) → Line
  recovered : (value path request_id : String) → Line

-- OpenTelemetry's globals; a context is a text that names it. `extract` reads the headers of a request
-- by the `Get` of a carrier, `start` makes the context of the span that is started then under a parent,
-- and `trace_id` is the trace of the span in a context.
pub record Tracer : Type 0 where
  pub background : String
  pub extract : (String → String) → String
  pub start : ℕ → (parent name : String) → String
  pub trace_id : String → Option String

pub record Process : Type 0 where
  pub tracer : Tracer
  -- How many spans have been started.
  pub started : ℕ
  -- The counter, and the histogram with it.
  pub samples : List Sample
  pub spans : List Span
  pub lines : List Line
  -- The byte that each call of `rand.Read` gives for each index, and how many calls there have been.
  pub random : ℕ → ℕ → ℕ
  pub drawn : ℕ
