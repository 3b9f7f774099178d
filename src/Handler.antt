-- ===== src/Handler.antt =====
-- internal/handler/handler.go: JSON responses, the probes, and what the source uses of a fasthttp
-- request context.
pub mod Responds
use playback_service.Prelude.{ℕ, String, Bool, true, not, Option, none, some, if◌then◌else◌}
use playback_service.Apperror.{Error, http_status, ErrorBody, to_response}
use playback_service.Json.{Json, str, obj, end, member}

pub data Body : Type 0 where
  empty : Body
  json : Json → Body
  text : String → Body

-- The part of a response that the source writes.
pub record Response : Type 0 where
  pub status : ℕ
  pub content_type : String
  pub body : Body
  pub headers : String → String

-- `header` is `Peek`, with the empty text for a header that is not there.
pub record RequestCtx (Bytes : Type 0) : Type 0 where
  pub method : String
  pub path : String
  pub header : String → String
  pub post_body : Bytes
  pub user_value : String → Option String
  pub response : Response

-- The error body in JSON.
abbrev pub encode_error : ErrorBody → Json
encode_error b =
    obj
      (member "error" (obj (member "code" (str b.code) (member "message" (str b.message) end))) end)

module _ {Bytes : Type 0} where
  abbrev pub set_status_code : ℕ → RequestCtx Bytes → RequestCtx Bytes
  set_status_code code ctx = record ctx { response = record ctx.response { status = code } }

  -- `v` is what `Encode` writes, and `none` where it fails; the body is then the text of the value
  -- below.
  unfoldable pub write_json : RequestCtx Bytes → ℕ → Option Json → RequestCtx Bytes
  write_json ctx status (some v) = record ctx {
    response = record ctx.response {
      content_type = "application/json";
      status = status;
      body = json v;
    };
  }
  write_json ctx status none = record ctx {
    response = record ctx.response {
      content_type = "application/json";
      status = 500;
      body = json (
          encode_error (record { code = "INTERNAL_ERROR"; message = "failed to encode response" }));
    };
  }

  unfoldable pub write_error : RequestCtx Bytes → Error → RequestCtx Bytes
  unfolding write_json
  write_error ctx e = write_json ctx (http_status e) (some (encode_error (to_response e)))

  unfoldable pub healthz : RequestCtx Bytes → RequestCtx Bytes
  unfolding write_json
  healthz ctx = write_json ctx 200 (some (obj (member "status" (str "ok") end)))

  unfoldable pub example : RequestCtx Bytes → RequestCtx Bytes
  unfolding write_json
  example ctx =
      write_json ctx 200 (some (obj (member "message" (str "hello from service template") end)))

-- The handler of the probes; its flag is set while the service takes traffic.
pub record Handler : Type 0 where
  pub ready : Bool

abbrev pub new : Handler
new = record { ready = true }

abbrev pub set_ready : Bool → Handler → Handler
set_ready ready h = record h { ready = ready }

unfoldable pub readyz : {Bytes : Type 0} → Handler → RequestCtx Bytes → RequestCtx Bytes
unfolding write_json
readyz h ctx =
    if not h.ready
    then write_json ctx 503 (some (obj (member "status" (str "not ready") end)))
    else write_json ctx 200 (some (obj (member "status" (str "ready") end)))
