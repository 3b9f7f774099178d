-- ===== src/Session/Handler/Responds.antt =====
-- internal/session/handler.go: what the endpoints leave of a request context.
use playback_service.Prelude.{
  ℕ, String, Bool-cases, inl, inr, Option, none, some, Option-cases, List, ◌==◌,
}
use playback_service.Apperror.{Fault, as_app}
use playback_service.Session.Model.{decode_start, decode_heartbeat, decode_pause_resume}
use playback_service.External.{External, Outcome, ok, err}
use playback_service.World.{World, M}
use playback_service.Handler.{RequestCtx}
use playback_service.Handler.Responds.{
  Responds, write_json-Responds, write_error-Responds, set_status_code-Responds,
}
use playback_service.Validator.{Field, Verdict, Bound, bound, refused, bind_json}
use playback_service.Session.Handler.{
  start_fields, heartbeat_fields, pause_resume_fields, Ctx, with_user, or_refuse, service_error,
  with_body, write_service_error, answer, no_content, start, get_current, heartbeat, pause, resume,
}

-- The rest of an endpoint only responds.
abbrev Responding : {x : External} → RequestCtx x.Bytes → M x (RequestCtx x.Bytes) → Type 0
Responding {x} ctx m = (w : World x) → Responds ctx (m w).0

module _ (x : External) (struct : List Field → Verdict) (ctx : Ctx x struct) where
  with_user-Responds :
      (k : String → M x (Ctx x struct))
      → ((uid : String) → Responding ctx (k uid))
      → Responding ctx (with_user x struct ctx k)
  unfolding with_user
  with_user-Responds k each w = elim (Bool-cases (ctx.header "X-User-ID" == "")) [
    | inl missing ↦ rw missing (write_error-Responds ctx _)
    | inr given ↦ rw given (each (ctx.header "X-User-ID") w)
  ]

  or_refuse-Responds :
      {A : Type 0} (b : Bound A) (k : A → M x (Ctx x struct))
      → ((req : A) → Responding ctx (k req))
      → Responding ctx (or_refuse x struct ctx b k)
  or_refuse-Responds (refused e) k each w = write_error-Responds ctx e
  or_refuse-Responds (bound req) k each w = each req w

  write_service_error-Responds : (e : Fault) → Responding ctx (write_service_error x struct ctx e)
  unfolding write_service_error
  write_service_error-Responds e w = elim (Option-cases (as_app e)) [
    | inl other ↦ rw (other, service_error) (write_error-Responds ctx _)
    | inr (app, own) ↦ rw (own, service_error) (write_error-Responds ctx _)
  ]

  answer-Responds : (n : ℕ) (r : Outcome ℕ) → Responding ctx (answer x struct ctx n r)
  answer-Responds n (err e) w = write_service_error-Responds e w
  answer-Responds n (ok p) w = write_json-Responds ctx _ _

  no_content-Responds : (r : Option Fault) → Responding ctx (no_content x struct ctx r)
  no_content-Responds (some e) w = write_service_error-Responds e w
  no_content-Responds none w = set_status_code-Responds ctx 204

  pub start-Responds : Responding ctx (start x struct ctx)
  unfolding start with_body
  start-Responds = with_user-Responds _ λ uid.
      or_refuse-Responds (bind_json x struct decode_start start_fields ctx.post_body) _
        λ req w. answer-Responds 201 _ _

  pub get_current-Responds : Responding ctx (get_current x struct ctx)
  unfolding get_current
  get_current-Responds = with_user-Responds _ λ uid w. answer-Responds 200 _ _

  pub heartbeat-Responds : Responding ctx (heartbeat x struct ctx)
  unfolding heartbeat with_body
  heartbeat-Responds = with_user-Responds _ λ uid.
      or_refuse-Responds (bind_json x struct decode_heartbeat heartbeat_fields ctx.post_body) _
        λ req w. no_content-Responds _ _

  pub pause-Responds : Responding ctx (pause x struct ctx)
  unfolding pause with_body
  pause-Responds = with_user-Responds _ λ uid.
      or_refuse-Responds (bind_json x struct decode_pause_resume pause_resume_fields ctx.post_body)
        _ λ req w. answer-Responds 200 _ _

  pub resume-Responds : Responding ctx (resume x struct ctx)
  unfolding resume with_body
  resume-Responds = with_user-Responds _ λ uid.
      or_refuse-Responds (bind_json x struct decode_pause_resume pause_resume_fields ctx.post_body)
        _ λ req w. answer-Responds 200 _ _
