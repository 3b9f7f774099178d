-- ===== src/Concurrent/Bounded/Handler.antt =====
-- internal/session/handler.go: how many calls an endpoint makes at most.
use playback_service.Prelude.{
  ℕ, String, Bool-cases, Option-cases, inl, inr, Option, none, some, List, ◌==◌, arith,
}
use playback_service.Apperror.{Fault, as_app}
use playback_service.Session.Model.{decode_start, decode_heartbeat, decode_pause_resume}
use playback_service.Session.Handler.{Ctx, start_fields, heartbeat_fields, pause_resume_fields}
use playback_service.External.{External, Outcome, ok, err}
use playback_service.Validator.{Field, Verdict, Bound, bound, refused, bind_json}
use playback_service.Concurrent.{Prog, ◌>>=◌, ◌>>◌}
use playback_service.Concurrent.Service
use playback_service.Concurrent.Handler.{
  as_user, unless_refused, as_body, write_service_error, answering, without_content,
}
use playback_service.Concurrent.Handler as Endpoints
use playback_service.Concurrent.System.{
  Endpoint, start, get_current, heartbeat, pause, resume, calls,
}
use playback_service.Concurrent.Bounded.{Within, Within-more, Within-bind}
use playback_service.Concurrent.Bounded.Service.{
  start-Within, get_current-Within, heartbeat-Within, pause-Within, resume-Within,
}

-- The calls of a `Pause` or a `Resume`, the longest, with the response.
abbrev pub most : ℕ
most = 15

module _ (x : External) (struct : List Field → Verdict) (ctx : Ctx x struct) where
  as_user-Within :
      (n : ℕ) (k : String → Prog x (Ctx x struct))
      → ((uid : String) → Within n (k uid))
      → Within n (as_user x struct ctx k)
  unfolding as_user Within
  as_user-Within n k few = elim (Bool-cases (ctx.header "X-User-ID" == "")) [
    | inl missing ↦ rw missing tt
    | inr given ↦ rw given (few (ctx.header "X-User-ID"))
  ]

  unless_refused-Within :
      {A : Type 0} (n : ℕ) (b : Bound A) (k : A → Prog x (Ctx x struct))
      → ((req : A) → Within n (k req))
      → Within n (unless_refused x struct ctx b k)
  unfolding Within
  unless_refused-Within n (refused e) k few = tt
  unless_refused-Within n (bound req) k few = few req

  write_service_error-Within : (e : Fault) → Within 1 (write_service_error x struct ctx e)
  unfolding write_service_error ◌>>◌ ◌>>=◌ Within
  write_service_error-Within e = elim (Option-cases (as_app e)) [
    | inl other ↦ rw (other, write_service_error) (λ u. tt)
    | inr (app, own) ↦ rw (own, write_service_error) tt
  ]

  answering-Within : (n : ℕ) (r : Outcome ℕ) → Within 1 (answering x struct ctx n r)
  unfolding ◌>>=◌ Within
  answering-Within n (err e) = write_service_error-Within e
  answering-Within n (ok p) = λ s. tt

  without_content-Within : (r : Option Fault) → Within 1 (without_content x struct ctx r)
  unfolding Within
  without_content-Within (some e) = write_service_error-Within e
  without_content-Within none = tt

  pub calls-Within : (e : Endpoint) → Within most (calls x struct e ctx)
  unfolding calls Endpoints.start Endpoints.get_current Endpoints.heartbeat Endpoints.pause
      Endpoints.resume as_body
  calls-Within start = as_user-Within most _ λ uid.
      unless_refused-Within most (bind_json x struct decode_start start_fields ctx.post_body) _ λ r.
        Within-more 8 most _ (omega arith)
          (Within-bind 7 1 (Service.start x uid r) _ (start-Within x uid r) (answering-Within 201))
  calls-Within get_current = as_user-Within most _ λ uid. Within-more 6 most _ (omega arith) (
      Within-bind 5 1 (Service.get_current x uid) _ (get_current-Within x uid)
        (answering-Within 200))
  calls-Within heartbeat = as_user-Within most _ λ uid.
      unless_refused-Within most
        (bind_json x struct decode_heartbeat heartbeat_fields ctx.post_body) _
        λ r. Within-more 12 most _ (omega arith) (
          Within-bind 11 1 (Service.heartbeat x uid r) _ (heartbeat-Within x uid r)
            without_content-Within)
  calls-Within pause = as_user-Within most _ λ uid.
      unless_refused-Within most
        (bind_json x struct decode_pause_resume pause_resume_fields ctx.post_body) _
        λ r.
          Within-bind 14 1 (Service.pause x uid r.device_id) _ (pause-Within x uid r.device_id)
            (answering-Within 200)
  calls-Within resume = as_user-Within most _ λ uid.
      unless_refused-Within most
        (bind_json x struct decode_pause_resume pause_resume_fields ctx.post_body) _
        λ r.
          Within-bind 14 1 (Service.resume x uid r.device_id) _ (resume-Within x uid r.device_id)
            (answering-Within 200)
