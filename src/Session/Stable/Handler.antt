-- ===== src/Session/Stable/Handler.antt =====
-- internal/session/handler.go: what every primitive step keeps, the endpoints keep.
use playback_service.Prelude.{
  ℕ, String, Bool-cases, inl, inr, Option, none, some, Option-cases, List, ◌==◌,
}
use playback_service.Apperror.{Fault, as_app}
use playback_service.Session.Model.{decode_start, decode_heartbeat, decode_pause_resume}
use playback_service.External.{External, Outcome, ok, err}
use playback_service.World.{World, M}
use playback_service.World.Stable.{Keeps, IsStable}
use playback_service.Validator.{Field, Verdict, Bound, bound, refused, bind_json}
use playback_service.Session.Handler.{
  start_fields, heartbeat_fields, pause_resume_fields, Ctx, with_user, or_refuse, with_body,
  service_error, write_service_error, answer, no_content, start, get_current, heartbeat, pause,
  resume,
}
use playback_service.Session.Stable.Service.{
  start-Keeps, get_current-Keeps, heartbeat-Keeps, pause-Keeps, resume-Keeps,
}

module _ {x : External} (struct : List Field → Verdict) (I : World x → Type 0) (stable : IsStable I)
    (ctx : Ctx x struct) where
  with_user-Keeps :
      (k : String → M x (Ctx x struct))
      → ((uid : String) → Keeps I (k uid))
      → Keeps I (with_user x struct ctx k)
  unfolding with_user
  with_user-Keeps k kept w i = elim (Bool-cases (ctx.header "X-User-ID" == "")) [
    | inl missing ↦ rw missing i
    | inr given ↦ rw given (kept (ctx.header "X-User-ID") w i)
  ]

  or_refuse-Keeps :
      {A : Type 0} (b : Bound A) (k : A → M x (Ctx x struct))
      → ((req : A) → Keeps I (k req))
      → Keeps I (or_refuse x struct ctx b k)
  or_refuse-Keeps (refused e) k kept w i = i
  or_refuse-Keeps (bound req) k kept w i = kept req w i

  write_service_error-Keeps : (e : Fault) → Keeps I (write_service_error x struct ctx e)
  unfolding write_service_error
  write_service_error-Keeps e w i = elim (Option-cases (as_app e)) [
    | inl other ↦ rw (other, service_error) (stable.log _ _ _ w i)
    | inr (app, own) ↦ rw (own, service_error) i
  ]

  answer-Keeps : (status : ℕ) (r : Outcome ℕ) → Keeps I (answer x struct ctx status r)
  answer-Keeps status (err e) w i = write_service_error-Keeps e w i
  answer-Keeps status (ok p) w i = i

  no_content-Keeps : (r : Option Fault) → Keeps I (no_content x struct ctx r)
  no_content-Keeps (some e) w i = write_service_error-Keeps e w i
  no_content-Keeps none w i = i

  pub start_endpoint-Keeps : Keeps I (start x struct ctx)
  unfolding start with_body
  start_endpoint-Keeps = with_user-Keeps _ λ uid.
      or_refuse-Keeps (bind_json x struct decode_start start_fields ctx.post_body) _
        λ req w i. answer-Keeps 201 _ _ (start-Keeps I stable uid req w i)

  pub get_current_endpoint-Keeps : Keeps I (get_current x struct ctx)
  unfolding get_current
  get_current_endpoint-Keeps =
      with_user-Keeps _ λ uid w i. answer-Keeps 200 _ _ (get_current-Keeps I stable uid w i)

  pub heartbeat_endpoint-Keeps : Keeps I (heartbeat x struct ctx)
  unfolding heartbeat with_body
  heartbeat_endpoint-Keeps = with_user-Keeps _ λ uid.
      or_refuse-Keeps (bind_json x struct decode_heartbeat heartbeat_fields ctx.post_body) _
        λ req w i. no_content-Keeps _ _ (heartbeat-Keeps I stable uid req w i)

  pub pause_endpoint-Keeps : Keeps I (pause x struct ctx)
  unfolding pause with_body
  pause_endpoint-Keeps = with_user-Keeps _ λ uid.
      or_refuse-Keeps (bind_json x struct decode_pause_resume pause_resume_fields ctx.post_body) _
        λ req w i. answer-Keeps 200 _ _ (pause-Keeps I stable uid req.device_id w i)

  pub resume_endpoint-Keeps : Keeps I (resume x struct ctx)
  unfolding resume with_body
  resume_endpoint-Keeps = with_user-Keeps _ λ uid.
      or_refuse-Keeps (bind_json x struct decode_pause_resume pause_resume_fields ctx.post_body) _
        λ req w i. answer-Keeps 200 _ _ (resume-Keeps I stable uid req.device_id w i)
