-- ===== src/Session/Handler.antt =====
-- internal/session/handler.go: the endpoints. Each changes the shared state and the context.
pub mod Statuses
pub mod Decisions
pub mod Acknowledged
pub mod Responds
use playback_service.Prelude.{ℕ, String, Option, none, some, List, [], ◌∷◌, ◌==◌, if◌then◌else◌}
use playback_service.Apperror.{Fault, new_unauthorized, new_internal, as_app}
use playback_service.Json.{Json}
use playback_service.Session.Model.{
  StartRequest, HeartbeatRequest, PauseResumeRequest, decode_start, decode_heartbeat,
  decode_pause_resume, encode_session,
}
use playback_service.External.{External, Outcome, ok, err}
use playback_service.World.{M, pure, ◌>>=◌, ◌>>◌, error, fault, log_line, deref}
use playback_service.Handler.{RequestCtx, set_status_code, write_json, write_error}
use playback_service.Validator.{
  Field, required, min, text, number, Verdict, Bound, bound, refused, bind_json,
}
use playback_service.Session.Service

-- The fields of the request bodies, with their `validate` tags.
abbrev pub start_fields : StartRequest → List Field
start_fields r =
    record { name = "TrackID"; value = text r.track_id; tags = required ∷ [] }
    ∷ record { name = "DeviceID"; value = text r.device_id; tags = required ∷ [] }
    ∷ record { name = "Position"; value = number r.position; tags = [] }
    ∷ []

abbrev pub heartbeat_fields : HeartbeatRequest → List Field
heartbeat_fields r =
    record { name = "TrackID"; value = text r.track_id; tags = required ∷ [] }
    ∷ record { name = "Position"; value = number r.position; tags = min 0 ∷ [] }
    ∷ record { name = "DeviceID"; value = text r.device_id; tags = required ∷ [] }
    ∷ []

abbrev pub pause_resume_fields : PauseResumeRequest → List Field
pause_resume_fields r =
    record { name = "DeviceID"; value = text r.device_id; tags = required ∷ [] } ∷ []

module _ (x : External) (struct : List Field → Verdict) where
  abbrev pub Ctx : Type 0
  Ctx = RequestCtx x.Bytes

  -- h.userID(ctx) and the return that follows where it fails.
  unfoldable pub with_user : Ctx → (String → M x Ctx) → M x Ctx
  with_user ctx k =
      let uid = ctx.header "X-User-ID" in
      if uid == ""
      then pure (write_error ctx (new_unauthorized "X-User-ID header is required"))
      else k uid

  abbrev pub or_refuse : {A : Type 0} → Ctx → Bound A → (A → M x Ctx) → M x Ctx
  or_refuse ctx (refused e) k = pure (write_error ctx e)
  or_refuse ctx (bound req) k = k req

  -- validator.BindJSON(ctx, &req) and the return that follows where it fails.
  unfoldable pub with_body :
      {A : Type 0} → (Json → Option A) → (A → List Field) → Ctx → (A → M x Ctx) → M x Ctx
  with_body decode fields ctx k = or_refuse ctx (bind_json x struct decode fields ctx.post_body) k

  abbrev pub service_error : Ctx → Fault → M x Ctx
  service_error ctx e = elim (as_app e) [
    | some appErr ↦ pure (write_error ctx appErr)
    | none ↦
        log_line error "unexpected service error" (("error", fault e) ∷ [])
        >> pure (write_error ctx (new_internal "unexpected error" e))
  ]

  unfoldable pub write_service_error : Ctx → Fault → M x Ctx
  write_service_error ctx e = service_error ctx e

  -- The end of the endpoints that answer with a session.
  abbrev pub answer : Ctx → ℕ → Outcome ℕ → M x Ctx
  answer ctx status (err e) = write_service_error ctx e
  answer ctx status (ok p) = do
    s ← deref p
    pure (write_json ctx status (encode_session x.format_time x.parse_time s))

  abbrev pub no_content : Ctx → Option Fault → M x Ctx
  no_content ctx (some e) = write_service_error ctx e
  no_content ctx none = pure (set_status_code 204 ctx)

  unfoldable pub start : Ctx → M x Ctx
  start ctx = with_user ctx λ uid.
      with_body decode_start start_fields ctx
        λ req. do result ← Service.start x uid req; answer ctx 201 result

  unfoldable pub get_current : Ctx → M x Ctx
  get_current ctx =
      with_user ctx λ uid. do result ← Service.get_current x uid; answer ctx 200 result

  unfoldable pub heartbeat : Ctx → M x Ctx
  heartbeat ctx = with_user ctx λ uid.
      with_body decode_heartbeat heartbeat_fields ctx
        λ req. do result ← Service.heartbeat x uid req; no_content ctx result

  unfoldable pub pause : Ctx → M x Ctx
  pause ctx = with_user ctx λ uid.
      with_body decode_pause_resume pause_resume_fields ctx
        λ req. do result ← Service.pause x uid req.device_id; answer ctx 200 result

  unfoldable pub resume : Ctx → M x Ctx
  resume ctx = with_user ctx λ uid.
      with_body decode_pause_resume pause_resume_fields ctx
        λ req. do result ← Service.resume x uid req.device_id; answer ctx 200 result
