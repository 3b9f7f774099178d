-- ===== src/Concurrent/Handler.antt =====
-- internal/session/handler.go, call by call.
use playback_service.Prelude.{ℕ, String, Option, none, some, List, [], ◌∷◌, ◌==◌, if◌then◌else◌}
use playback_service.Apperror.{Fault, new_unauthorized, new_internal, as_app}
use playback_service.Json.{Json}
use playback_service.Session.Model.{
  decode_start, decode_heartbeat, decode_pause_resume, encode_session,
}
use playback_service.Session.Handler.{Ctx, start_fields, heartbeat_fields, pause_resume_fields}
use playback_service.External.{External, Outcome, ok, err}
use playback_service.World.{error, fault, log_line, deref}
use playback_service.Handler.{set_status_code, write_json, write_error}
use playback_service.Validator.{Field, Verdict, Bound, bound, refused, bind_json}
use playback_service.Concurrent.{Prog, ret, does, ◌>>=◌, ◌>>◌}
use playback_service.Concurrent.Service

module _ (x : External) (struct : List Field → Verdict) where
  unfoldable pub as_user : Ctx x struct → (String → Prog x (Ctx x struct)) → Prog x (Ctx x struct)
  as_user ctx k =
      let uid = ctx.header "X-User-ID" in
      if uid == ""
      then ret (write_error ctx (new_unauthorized "X-User-ID header is required"))
      else k uid

  abbrev pub unless_refused :
      {A : Type 0} → Ctx x struct → Bound A → (A → Prog x (Ctx x struct)) → Prog x (Ctx x struct)
  unless_refused ctx (refused e) k = ret (write_error ctx e)
  unless_refused ctx (bound req) k = k req

  unfoldable pub as_body :
      {A : Type 0}
      → (Json → Option A)
      → (A → List Field)
      → Ctx x struct
      → (A → Prog x (Ctx x struct))
      → Prog x (Ctx x struct)
  as_body decode fields ctx k =
      unless_refused ctx (bind_json x struct decode fields ctx.post_body) k

  unfoldable pub write_service_error : Ctx x struct → Fault → Prog x (Ctx x struct)
  write_service_error ctx e = elim (as_app e) [
    | some appErr ↦ ret (write_error ctx appErr)
    | none ↦
        does (log_line error "unexpected service error" (("error", fault e) ∷ []))
        >> ret (write_error ctx (new_internal "unexpected error" e))
  ]

  abbrev pub answering : Ctx x struct → ℕ → Outcome ℕ → Prog x (Ctx x struct)
  answering ctx status (err e) = write_service_error ctx e
  answering ctx status (ok p) = do
    s ← does (deref p)
    ret (write_json ctx status (encode_session x.format_time x.parse_time s))

  abbrev pub without_content : Ctx x struct → Option Fault → Prog x (Ctx x struct)
  without_content ctx (some e) = write_service_error ctx e
  without_content ctx none = ret (set_status_code 204 ctx)

  unfoldable pub start : Ctx x struct → Prog x (Ctx x struct)
  start ctx = as_user ctx λ uid.
      as_body decode_start start_fields ctx
        λ req. do result ← Service.start x uid req; answering ctx 201 result

  unfoldable pub get_current : Ctx x struct → Prog x (Ctx x struct)
  get_current ctx =
      as_user ctx λ uid. do result ← Service.get_current x uid; answering ctx 200 result

  unfoldable pub heartbeat : Ctx x struct → Prog x (Ctx x struct)
  heartbeat ctx = as_user ctx λ uid.
      as_body decode_heartbeat heartbeat_fields ctx
        λ req. do result ← Service.heartbeat x uid req; without_content ctx result

  unfoldable pub pause : Ctx x struct → Prog x (Ctx x struct)
  pause ctx = as_user ctx λ uid.
      as_body decode_pause_resume pause_resume_fields ctx
        λ req. do result ← Service.pause x uid req.device_id; answering ctx 200 result

  unfoldable pub resume : Ctx x struct → Prog x (Ctx x struct)
  resume ctx = as_user ctx λ uid.
      as_body decode_pause_resume pause_resume_fields ctx
        λ req. do result ← Service.resume x uid req.device_id; answering ctx 200 result
