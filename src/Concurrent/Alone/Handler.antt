-- ===== src/Concurrent/Alone/Handler.antt =====
-- internal/session/handler.go: the calls in a row are the endpoints of Session/Handler.
use playback_service.Prelude.{
  ℕ, String, refl, Bool-cases, Option-cases, inl, inr, Option, none, some, List, ◌==◌,
}
use playback_service.Apperror.{Fault, as_app}
use playback_service.Session.Model.{decode_start, decode_heartbeat, decode_pause_resume}
use playback_service.Session.Service as WholeService
use playback_service.Session.Handler as Whole
use playback_service.External.{External, Outcome, ok, err}
use playback_service.World.{M}
use playback_service.Validator.{Field, Verdict, Bound, bound, refused, bind_json}
use playback_service.Concurrent.{Prog, run, ◌>>=◌, ◌>>◌}
use playback_service.Concurrent.Service
use playback_service.Concurrent.Handler.{
  as_user, unless_refused, as_body, write_service_error, answering, without_content, start,
  get_current, heartbeat, pause, resume,
}
use playback_service.Concurrent.Alone.{Runs, Runs-bind}
use playback_service.Concurrent.Alone.Service.{
  start-Runs, get_current-Runs, heartbeat-Runs, pause-Runs, resume-Runs,
}

module _ (x : External) (struct : List Field → Verdict) (ctx : Whole.Ctx x struct) where
  as_user-Runs :
      (k : String → Prog x (Whole.Ctx x struct)) (g : String → M x (Whole.Ctx x struct))
      → ((uid : String) → Runs (k uid) (g uid))
      → Runs (as_user x struct ctx k) (Whole.with_user x struct ctx g)
  unfolding run as_user Whole.with_user
  as_user-Runs k g each w = elim (Bool-cases (ctx.header "X-User-ID" == "")) [
    | inl missing ↦ rw missing refl
    | inr given ↦ rw given (each (ctx.header "X-User-ID") w)
  ]

  unless_refused-Runs :
      {A : Type 0} (b : Bound A) (k : A → Prog x (Whole.Ctx x struct))
      (g : A → M x (Whole.Ctx x struct))
      → ((req : A) → Runs (k req) (g req))
      → Runs (unless_refused x struct ctx b k) (Whole.or_refuse x struct ctx b g)
  unfolding run
  unless_refused-Runs (refused e) k g each w = refl
  unless_refused-Runs (bound req) k g each w = each req w

  write_service_error-Runs :
      (e : Fault)
      → Runs (write_service_error x struct ctx e) (Whole.write_service_error x struct ctx e)
  unfolding run ◌>>=◌ ◌>>◌ write_service_error Whole.write_service_error
  write_service_error-Runs e w = elim (Option-cases (as_app e)) [
    | inl other ↦ rw (other, write_service_error, Whole.service_error) refl
    | inr (app, own) ↦ rw (own, write_service_error, Whole.service_error) refl
  ]

  answering-Runs :
      (n : ℕ) (r : Outcome ℕ) → Runs (answering x struct ctx n r) (Whole.answer x struct ctx n r)
  unfolding run ◌>>=◌
  answering-Runs n (err e) w = write_service_error-Runs e w
  answering-Runs n (ok p) w = refl

  without_content-Runs :
      (r : Option Fault) → Runs (without_content x struct ctx r) (Whole.no_content x struct ctx r)
  unfolding run
  without_content-Runs (some e) w = write_service_error-Runs e w
  without_content-Runs none w = refl

  pub start_endpoint-Runs : Runs (start x struct ctx) (Whole.start x struct ctx)
  unfolding start Whole.start as_body Whole.with_body
  start_endpoint-Runs = as_user-Runs _ _ λ uid.
      unless_refused-Runs (bind_json x struct decode_start Whole.start_fields ctx.post_body) _ _
        λ req.
          Runs-bind (Service.start x uid req) (WholeService.start x uid req) _ _
            (start-Runs x uid req) (answering-Runs 201)

  pub get_current_endpoint-Runs : Runs (get_current x struct ctx) (Whole.get_current x struct ctx)
  unfolding get_current Whole.get_current
  get_current_endpoint-Runs = as_user-Runs _ _ λ uid.
      Runs-bind (Service.get_current x uid) (WholeService.get_current x uid) _ _
        (get_current-Runs x uid) (answering-Runs 200)

  pub heartbeat_endpoint-Runs : Runs (heartbeat x struct ctx) (Whole.heartbeat x struct ctx)
  unfolding heartbeat Whole.heartbeat as_body Whole.with_body
  heartbeat_endpoint-Runs = as_user-Runs _ _ λ uid.
      unless_refused-Runs (bind_json x struct decode_heartbeat Whole.heartbeat_fields ctx.post_body)
        _ _
        λ req.
          Runs-bind (Service.heartbeat x uid req) (WholeService.heartbeat x uid req) _ _
            (heartbeat-Runs x uid req) without_content-Runs

  pub pause_endpoint-Runs : Runs (pause x struct ctx) (Whole.pause x struct ctx)
  unfolding pause Whole.pause as_body Whole.with_body
  pause_endpoint-Runs = as_user-Runs _ _ λ uid.
      unless_refused-Runs
        (bind_json x struct decode_pause_resume Whole.pause_resume_fields ctx.post_body) _ _
        λ r.
          Runs-bind (Service.pause x uid r.device_id) (WholeService.pause x uid r.device_id) _ _
            (pause-Runs x uid r.device_id) (answering-Runs 200)

  pub resume_endpoint-Runs : Runs (resume x struct ctx) (Whole.resume x struct ctx)
  unfolding resume Whole.resume as_body Whole.with_body
  resume_endpoint-Runs = as_user-Runs _ _ λ uid.
      unless_refused-Runs
        (bind_json x struct decode_pause_resume Whole.pause_resume_fields ctx.post_body) _ _
        λ r.
          Runs-bind (Service.resume x uid r.device_id) (WholeService.resume x uid r.device_id) _ _
            (resume-Runs x uid r.device_id) (answering-Runs 200)
