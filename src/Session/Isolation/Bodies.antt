-- ===== src/Session/Isolation/Bodies.antt =====
-- What the bodies of the responses tell.
use playback_service.Prelude.{
  ℕ, String, ◌≡◌, refl, Bool-cases, inl, inr, Option, none, some, Option-cases, List, ◌==◌, pos,
}
use playback_service.Apperror.{Fault, ErrorBody, as_app}
use playback_service.Json.{Json}
use playback_service.Session.Model.{
  PlaybackSession, StartRequest, decode_start, decode_heartbeat, decode_pause_resume,
  encode_session,
}
use playback_service.External.{External, Outcome, ok, err}
use playback_service.External.Laws.{IsReadable, IsRedis, IsPostgres}
use playback_service.World.{World, M}
use playback_service.Handler.{RequestCtx, json, encode_error, write_json, write_error}
use playback_service.Validator.{Field, Verdict, Bound, bound, refused, bind_json}
use playback_service.Session.Service
use playback_service.Session.Repository.Answers.{seen}
use playback_service.Session.Handler.{
  start_fields, heartbeat_fields, pause_resume_fields, Ctx, with_user, or_refuse, service_error,
  with_body, write_service_error, answer, no_content, start, get_current, heartbeat, pause, resume,
}
use playback_service.Session.System.{Reach}
use playback_service.Session.Isolation.Keyed.{IsKeyed}
use playback_service.Session.Isolation.Users.{Own, Reach-Own}

module _ (x : External) where
  -- The body is a session of the user, an error, or the one that was there.
  pub data Discloses (uid : String) (ctx after : RequestCtx x.Bytes) : Type 0 where
    a_session :
        (s : PlaybackSession) (v : Json)
        → s.user_id ≡ uid
        → encode_session x.format_time x.parse_time s ≡ some v
        → after.response.body ≡ json v
        → Discloses uid ctx after
    an_error :
        (b : ErrorBody) → after.response.body ≡ json (encode_error b) → Discloses uid ctx after
    nothing : after.response.body ≡ ctx.response.body → Discloses uid ctx after

  module _ (struct : List Field → Verdict) (uid : String) (ctx : Ctx x struct) (w : World x) where
    with_user-Discloses :
        (k : String → M x (Ctx x struct))
        → ctx.header "X-User-ID" ≡ uid
        → Discloses uid ctx (k uid w).0
        → Discloses uid ctx (with_user x struct ctx k w).0
    unfolding with_user write_error write_json
    with_user-Discloses k asks told = elim (Bool-cases (ctx.header "X-User-ID" == "")) [
      | inl missing ↦ rw missing (an_error _ refl)
      | inr given ↦ rw given (rw asks told)
    ]

    or_refuse-Discloses :
        {A : Type 0} (b : Bound A) (k : A → M x (Ctx x struct))
        → ((req : A) → Discloses uid ctx (k req w).0)
        → Discloses uid ctx (or_refuse x struct ctx b k w).0
    unfolding write_error write_json
    or_refuse-Discloses (refused e) k told = an_error _ refl
    or_refuse-Discloses (bound req) k told = told req

  module _ (struct : List Field → Verdict) (uid : String) (ctx : Ctx x struct) where
    write_service_error-Discloses :
        (e : Fault) (w : World x) → Discloses uid ctx (write_service_error x struct ctx e w).0
    unfolding write_service_error write_error write_json
    write_service_error-Discloses e w = elim (Option-cases (as_app e)) [
      | inl other ↦ rw (other, service_error) (an_error _ refl)
      | inr (app, own) ↦ rw (own, service_error) (an_error _ refl)
    ]

    answer-Discloses :
        (n : ℕ) (r : Outcome ℕ × World x)
        → Own uid (seen r)
        → Discloses uid ctx (answer x struct ctx n r.0 r.1).0
    unfolding write_json
    answer-Discloses n (err e, w) own = write_service_error-Discloses e w
    answer-Discloses n (ok p, w) own =
        elim (Option-cases (encode_session x.format_time x.parse_time (w.objects p))) [
          | inl beyond ↦ rw beyond (an_error _ refl)
          | inr (v, encoded) ↦ rw encoded (a_session (w.objects p) v own encoded refl)
        ]

    no_content-Discloses :
        (r : Option Fault × World x) → Discloses uid ctx (no_content x struct ctx r.0 r.1).0
    no_content-Discloses (some e, w) = write_service_error-Discloses e w
    no_content-Discloses (none, w) = nothing refl

-- A request for the operations that take none.
abbrev any_start : StartRequest
any_start = record { track_id = ""; device_id = ""; position = pos 0 }

module _ {x : External} (redis : IsRedis x) (readable : IsReadable x) (pg : IsPostgres x)
    (struct : List Field → Verdict) (w v : World x) (ctx : Ctx x struct) (k : IsKeyed redis w)
    (reached : Reach struct w v) where
  -- Who asks, by the header of the request.
  abbrev asker : String
  asker = ctx.header "X-User-ID"

  start-Discloses : Discloses x asker ctx (start x struct ctx v).0
  unfolding start with_body
  start-Discloses = with_user-Discloses x struct asker ctx v _ refl (
      or_refuse-Discloses x struct asker ctx v
        (bind_json x struct decode_start start_fields ctx.post_body) _
        λ req.
          answer-Discloses x struct asker ctx 201 (Service.start x asker req v)
            (Reach-Own redis readable pg struct w v asker "" req k reached).0)

  get_current-Discloses : Discloses x asker ctx (get_current x struct ctx v).0
  unfolding get_current
  get_current-Discloses = with_user-Discloses x struct asker ctx v _ refl (
      answer-Discloses x struct asker ctx 200 (Service.get_current x asker v)
        (Reach-Own redis readable pg struct w v asker "" any_start k reached).1)

  heartbeat-Discloses : Discloses x asker ctx (heartbeat x struct ctx v).0
  unfolding heartbeat with_body
  heartbeat-Discloses = with_user-Discloses x struct asker ctx v _ refl (
      or_refuse-Discloses x struct asker ctx v
        (bind_json x struct decode_heartbeat heartbeat_fields ctx.post_body) _
        λ req. no_content-Discloses x struct asker ctx (Service.heartbeat x asker req v))

  pause-Discloses : Discloses x asker ctx (pause x struct ctx v).0
  unfolding pause with_body
  pause-Discloses = with_user-Discloses x struct asker ctx v _ refl (
      or_refuse-Discloses x struct asker ctx v
        (bind_json x struct decode_pause_resume pause_resume_fields ctx.post_body) _
        λ r.
          answer-Discloses x struct asker ctx 200 (Service.pause x asker r.device_id v)
            (Reach-Own redis readable pg struct w v asker r.device_id any_start k reached).2)

  resume-Discloses : Discloses x asker ctx (resume x struct ctx v).0
  unfolding resume with_body
  resume-Discloses = with_user-Discloses x struct asker ctx v _ refl (
      or_refuse-Discloses x struct asker ctx v
        (bind_json x struct decode_pause_resume pause_resume_fields ctx.post_body) _
        λ r.
          answer-Discloses x struct asker ctx 200 (Service.resume x asker r.device_id v)
            (Reach-Own redis readable pg struct w v asker r.device_id any_start k reached).3)

-- No response tells of another user's session. In every state that requests, messages and goroutines
-- lead to from one with the keys of the cache in order, the body with which an endpoint answers is the
-- JSON of a session of the user whom the header of the request names, the JSON of an error, or the
-- body that was there, which is so for a heartbeat that is kept. This relies on the laws of Redis,
-- PostgreSQL and the text forms.
pub Reach-Discloses :
    {x : External} (redis : IsRedis x) (readable : IsReadable x) (pg : IsPostgres x)
    (struct : List Field → Verdict) (w v : World x) (ctx : Ctx x struct)
    → IsKeyed redis w
    → Reach struct w v
    → let uid = ctx.header "X-User-ID" in
      Discloses x uid ctx (start x struct ctx v).0
      × Discloses x uid ctx (get_current x struct ctx v).0
      × Discloses x uid ctx (heartbeat x struct ctx v).0
      × Discloses x uid ctx (pause x struct ctx v).0
      × Discloses x uid ctx (resume x struct ctx v).0
Reach-Discloses redis readable pg struct w v ctx k reached = (
  start-Discloses redis readable pg struct w v ctx k reached,
  get_current-Discloses redis readable pg struct w v ctx k reached,
  heartbeat-Discloses redis readable pg struct w v ctx k reached,
  pause-Discloses redis readable pg struct w v ctx k reached,
  resume-Discloses redis readable pg struct w v ctx k reached,
)
