-- ===== src/Concurrent/Safe/Handler.antt =====
-- internal/session/handler.go: an endpoint answers with a session of the user, an error, or nothing.
use playback_service.Prelude.{
  ℕ, String, ◌≡◌, refl, Bool-cases, Option-cases, inl, inr, Option, none, some, List, ◌==◌, arith,
}
use playback_service.Apperror.{
  Fault, Error, as_app, to_response, new_internal, new_unauthorized, error_of, no_cause,
}
use playback_service.Json.{Json}
use playback_service.Session.Model.{
  PlaybackSession, encode_session, decode_start, decode_heartbeat, decode_pause_resume,
}
use playback_service.Session.Handler.{Ctx, start_fields, heartbeat_fields, pause_resume_fields}
use playback_service.External.{External, Outcome, ok, err}
use playback_service.World.{World, log_line, deref}
use playback_service.Handler.{RequestCtx, json, encode_error, write_json, write_error}
use playback_service.Validator.{Field, Verdict, Bound, bound, refused, bind_json}
use playback_service.Concurrent.{Prog, ◌>>=◌, ◌>>◌}
use playback_service.Concurrent.Service
use playback_service.Concurrent.System.{Endpoint, calls}
use playback_service.Concurrent.System as Asked
use playback_service.Concurrent.Handler.{
  as_user, unless_refused, as_body, write_service_error, answering, without_content, start,
  get_current, heartbeat, pause, resume,
}
use playback_service.Concurrent.Safe.Rules.{
  Rules, Mine, Mine-later, Mine-error, Obeys, Any, Obeys-ret, Obeys-call, Obeys-bind,
}
use playback_service.Concurrent.Safe.Service.{
  start-Obeys, get_current-Obeys, heartbeat-Obeys, pause-Obeys, resume-Obeys,
}

-- What `WriteJSON` answers with where a session has no JSON form.
abbrev unencoded : Error
unencoded = error_of "INTERNAL_ERROR" "failed to encode response" 500 no_cause

module _ {x : External} (rules : Rules x) where
  -- The body is a session of the user that may be read, an error, or, for a
  -- change, the one that was there.
  pub data Tells (uid : String) (ctx after : RequestCtx x.Bytes) : Type 0 where
    a_session :
        (s : PlaybackSession) (v : Json)
        → s.user_id ≡ uid
        → rules.Fine s
        → encode_session x.format_time x.parse_time s ≡ some v
        → after.response.body ≡ json v
        → Tells uid ctx after
    an_error :
        (e : Error)
        → rules.Excused uid e
        → after.response.body ≡ json (encode_error (to_response e))
        → Tells uid ctx after
    nothing : rules.Writes uid → after.response.body ≡ ctx.response.body → Tells uid ctx after

  module _ (struct : List Field → Verdict) (ctx : Ctx x struct) where
    -- Who asks, by the header of the request.
    abbrev pub asker : String
    asker = ctx.header "X-User-ID"

    abbrev pub Told : Ctx x struct → World x → Type 0
    Told after w = Tells asker ctx after

    as_user-Obeys :
        (k : String → Prog x (Ctx x struct)) (w : World x)
        → Obeys rules Told (k asker) w
        → Obeys rules Told (as_user x struct ctx k) w
    unfolding as_user write_error write_json
    as_user-Obeys k w safe = elim (Bool-cases (ctx.header "X-User-ID" == "")) [
      | inl missing ↦ rw missing (
          Obeys-ret rules Told _ w (
            an_error (new_unauthorized "X-User-ID header is required")
              (rules.excused asker _ λ status. omega (arith, status)) refl))
      | inr given ↦ rw given safe
    ]

    unless_refused-Obeys :
        {A : Type 0} (b : Bound A) (k : A → Prog x (Ctx x struct)) (w : World x)
        → rules.Writes asker
        → ((req : A) → Obeys rules Told (k req) w)
        → Obeys rules Told (unless_refused x struct ctx b k) w
    unfolding write_error write_json
    unless_refused-Obeys (refused e) k w may safe =
        Obeys-ret rules Told _ w (an_error e (rules.excused_own asker e may) refl)
    unless_refused-Obeys (bound req) k w may safe = safe req

    write_service_error-Obeys :
        (e : Fault) (w : World x)
        → Mine rules asker (err e) w
        → Obeys rules Told (write_service_error x struct ctx e) w
    unfolding write_service_error write_error write_json ◌>>◌ ◌>>=◌
    write_service_error-Obeys e w own = elim (Option-cases (as_app e)) [
      | inl other ↦
          rw (other, write_service_error)
            (Obeys-call rules Told (log_line _ _ _) _ w (λ v r. rules.log _ _ _ v)
              λ v r i l. Obeys-ret rules Told _ _ (
                an_error (new_internal "unexpected error" e)
                  (rules.excused asker _ λ status. omega (arith, status)) refl))
      | inr (er, found) ↦
          rw (found, write_service_error)
            (Obeys-ret rules Told _ w (an_error er (own er found) refl))
    ]

    answering-Obeys :
        (n : ℕ) (r : Outcome ℕ) (w : World x)
        → Mine rules asker r w
        → Obeys rules Told (answering x struct ctx n r) w
    unfolding ◌>>=◌ write_json
    answering-Obeys n (err e) w own = write_service_error-Obeys e w own
    answering-Obeys n (ok p) w own =
        Obeys-call rules Told (deref p) _ w (λ v r i. (i, rules.stays v))
          λ v r i l.
            let mine = Mine-later rules asker (ok p) r own in
            Obeys-ret rules Told _ v
              (elim (Option-cases (encode_session x.format_time x.parse_time (v.objects p))) [
                | inl beyond ↦ rw beyond (
                    an_error unencoded (rules.excused asker _ λ status. omega (arith, status)) refl)
                | inr (j, encoded) ↦
                    rw encoded (a_session (v.objects p) j mine.1 mine.2 encoded refl)
              ])

    without_content-Obeys :
        (r : Option Fault) (w : World x)
        → rules.Writes asker
        → Obeys rules Told (without_content x struct ctx r) w
    without_content-Obeys (some e) w may =
        write_service_error-Obeys e w (Mine-error rules asker e w may)
    without_content-Obeys none w may = Obeys-ret rules Told _ w (nothing may refl)

    start_endpoint-Obeys :
        (w : World x) → rules.Writes asker → Obeys rules Told (start x struct ctx) w
    unfolding start as_body
    start_endpoint-Obeys w may = as_user-Obeys _ w (
        unless_refused-Obeys (bind_json x struct decode_start start_fields ctx.post_body) _ w may
          λ req.
            Obeys-bind rules (Mine rules asker) Told (Service.start x asker req)
              (answering x struct ctx 201) w (start-Obeys rules asker may req w)
              λ r v g own. answering-Obeys 201 r v own)

    heartbeat_endpoint-Obeys :
        (w : World x) → rules.Writes asker → Obeys rules Told (heartbeat x struct ctx) w
    unfolding heartbeat as_body
    heartbeat_endpoint-Obeys w may = as_user-Obeys _ w (
        unless_refused-Obeys (bind_json x struct decode_heartbeat heartbeat_fields ctx.post_body) _
          w may
          λ req.
            Obeys-bind rules (Any rules) Told (Service.heartbeat x asker req)
              (without_content x struct ctx) w (heartbeat-Obeys rules asker req w may)
              λ r v g any. without_content-Obeys r v may)

    get_current_endpoint-Obeys : (w : World x) → Obeys rules Told (get_current x struct ctx) w
    unfolding get_current
    get_current_endpoint-Obeys w = as_user-Obeys _ w (
        Obeys-bind rules (Mine rules asker) Told (Service.get_current x asker)
          (answering x struct ctx 200) w (get_current-Obeys rules asker w)
          λ r v g own. answering-Obeys 200 r v own)

    pause_endpoint-Obeys :
        (w : World x) → rules.Writes asker → Obeys rules Told (pause x struct ctx) w
    unfolding pause as_body
    pause_endpoint-Obeys w may = as_user-Obeys _ w (
        unless_refused-Obeys
          (bind_json x struct decode_pause_resume pause_resume_fields ctx.post_body) _ w may
          λ q.
            Obeys-bind rules (Mine rules asker) Told (Service.pause x asker q.device_id)
              (answering x struct ctx 200) w (pause-Obeys rules asker may q.device_id w)
              λ r v g own. answering-Obeys 200 r v own)

    resume_endpoint-Obeys :
        (w : World x) → rules.Writes asker → Obeys rules Told (resume x struct ctx) w
    unfolding resume as_body
    resume_endpoint-Obeys w may = as_user-Obeys _ w (
        unless_refused-Obeys
          (bind_json x struct decode_pause_resume pause_resume_fields ctx.post_body) _ w may
          λ q.
            Obeys-bind rules (Mine rules asker) Told (Service.resume x asker q.device_id)
              (answering x struct ctx 200) w (resume-Obeys rules asker may q.device_id w)
              λ r v g own. answering-Obeys 200 r v own)

    -- A read is admitted for any user, a change for those who may write.
    abbrev pub Admits : Endpoint → Type 0
    Admits Asked.get_current = Unit
    Admits Asked.start = rules.Writes asker
    Admits Asked.heartbeat = rules.Writes asker
    Admits Asked.pause = rules.Writes asker
    Admits Asked.resume = rules.Writes asker

    pub calls-Obeys :
        (e : Endpoint) (w : World x) → Admits e → Obeys rules Told (calls x struct e ctx) w
    unfolding calls
    calls-Obeys Asked.get_current w may = get_current_endpoint-Obeys w
    calls-Obeys Asked.start w may = start_endpoint-Obeys w may
    calls-Obeys Asked.heartbeat w may = heartbeat_endpoint-Obeys w may
    calls-Obeys Asked.pause w may = pause_endpoint-Obeys w may
    calls-Obeys Asked.resume w may = resume_endpoint-Obeys w may
