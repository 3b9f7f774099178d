-- ===== src/Session/Handler/Decisions.antt =====
-- Which status code an endpoint answers with, and when.
use playback_service.Prelude.{
  ℕ, String, ◌≡◌, ◌⊎◌, refl, Bool-cases, Option, none, some, Option-cases, List, inl, inr, ◌≢◌,
  ◌==◌, eq_iff,
}
use playback_service.Apperror.{Fault, Error, http_status}
use playback_service.Json.{Json}
use playback_service.Session.Model.{
  decode_start, decode_heartbeat, decode_pause_resume, encode_session,
}
use playback_service.External.{External, Outcome, ok, err}
use playback_service.World.{World, M}
use playback_service.Handler.{write_json, write_error}
use playback_service.Validator.{Field, Verdict, Bound, bound, refused, bind_json}
use playback_service.Session.Service
use playback_service.Session.Repository.{get}
use playback_service.Session.Service.Faults.{fault_status, start-fault, heartbeat-fault}
use playback_service.Session.Service.Absent.{
  Fails, Ends, Missing, get-Ends, pause-Ends, resume-Ends,
}
use playback_service.Session.Handler.{
  start_fields, heartbeat_fields, pause_resume_fields, Ctx, with_user, or_refuse, with_body,
  write_service_error, answer, no_content, start, get_current, heartbeat, pause, resume,
}
use playback_service.Session.Handler.Statuses.{
  bind_json-refused, status_of, write_service_error-status,
}

module _ (x : External) (struct : List Field → Verdict) where
  -- The service has a session to answer with, and it can be written as JSON.
  abbrev pub Delivers : Outcome ℕ × World x → Type 0
  Delivers (ok p, v) = encode_session x.format_time x.parse_time (v.objects p) ≢ none
  Delivers (err e, v) = ⊥

  -- The service has done what it was asked.
  abbrev pub Done : Option Fault × World x → Type 0
  Done (none, v) = Unit
  Done (some e, v) = ⊥

  -- The status of a request that the service was given: `missing` says that the session is missing,
  -- `good` that the service has what the answer needs.
  abbrev pub Answered : (missing good : Type 0) → (success n : ℕ) → Type 0
  Answered missing good success n =
      (missing × (n ≡ 404))
      ⊎ ((missing → ⊥) × good × (n ≡ success))
      ⊎ ((missing → ⊥) × (good → ⊥) × (n ≡ 500))

  abbrev pub Behind :
      {A : Type 0} → Bound A → (missing : Type 0) → (good : A → Type 0) → (success n : ℕ) → Type 0
  Behind (bound req) missing good success n = Answered missing (good req) success n
  Behind (refused e) missing good success n = n ≡ 400

  -- The status of any request.
  abbrev pub Decided :
      {A : Type 0}
      → String
      → Bound A
      → (missing : Type 0) → (good : A → Type 0) → (success n : ℕ) → Type 0
  Decided uid b missing good success n =
      ((uid ≡ "") × (n ≡ 401)) ⊎ ((uid ≢ "") × Behind b missing good success n)

  module _ (ctx : Ctx x struct) (w : World x) where
    with_user-status :
        (P : ℕ → Type 0) (k : String → M x (Ctx x struct))
        → (ctx.header "X-User-ID" ≡ "" → P 401)
        → (ctx.header "X-User-ID" ≢ "" → P (status_of x struct (k (ctx.header "X-User-ID") w)))
        → P (status_of x struct (with_user x struct ctx k w))
    unfolding with_user write_error
    with_user-status P k refusal each = elim (Bool-cases (ctx.header "X-User-ID" == "")) [
      | inl missing ↦ rw missing (refusal ((eq_iff (ctx.header "X-User-ID") "").0 missing))
      | inr given ↦ rw given (each λ same. cc ((eq_iff (ctx.header "X-User-ID") "").1 same, given))
    ]

    or_refuse-Behind :
        {A : Type 0} (b : Bound A) (k : A → M x (Ctx x struct)) (missing : Type 0)
        (good : A → Type 0) (success : ℕ)
        → ((e : Error) → b ≡ refused e → http_status e ≡ 400)
        → ((req : A) → Answered missing (good req) success (status_of x struct (k req w)))
        → Behind b missing good success (status_of x struct (or_refuse x struct ctx b k w))
    unfolding write_error
    or_refuse-Behind (refused e) k missing good success bad each = bad e refl
    or_refuse-Behind (bound req) k missing good success bad each = each req

    -- An endpoint with a body.
    with_body-Decided :
        {A : Type 0} (decode : Json → Option A) (fields : A → List Field)
        (k : String → A → M x (Ctx x struct)) (missing : Type 0) (good : A → Type 0) (success : ℕ)
        → ((req : A)
            → Answered missing
                (good req)
                success
                (status_of x struct (k (ctx.header "X-User-ID") req w)))
        → Decided
            (ctx.header "X-User-ID")
            (bind_json x struct decode fields ctx.post_body)
            missing
            good
            success
            (status_of x struct
              (with_user x struct ctx (λ uid. with_body x struct decode fields ctx (k uid)) w))
    unfolding with_body
    with_body-Decided decode fields k missing good success each =
        let b = bind_json x struct decode fields ctx.post_body in
        with_user-status (Decided (ctx.header "X-User-ID") b missing good success) _
          (λ nobody. inl (nobody, refl))
          λ given.
            let behind =
              or_refuse-Behind b (k (ctx.header "X-User-ID")) missing good success
                (bind_json-refused x struct decode fields ctx.post_body) each in
            inr (given, behind)

  module _ (missing : Type 0) (ctx : Ctx x struct) where
    Fails-Answered :
        (good : Type 0) (success : ℕ) (e : Fault) (w : World x)
        → Fails missing e
        → (good → ⊥)
        → Answered missing good success (status_of x struct (write_service_error x struct ctx e w))
    Fails-Answered good success e w kind none_good =
        rw (write_service_error-status x struct ctx e w) (elim kind [
          | inl (code, there) ↦ inl (there, code)
          | inr (code, there) ↦ inr (inr (there, none_good, code))
        ])

    answer-Answered :
        (success : ℕ) (r : Outcome ℕ × World x)
        → Ends missing r.0
        → Answered missing
            (Delivers r)
            success
            (status_of x struct (answer x struct ctx success r.0 r.1))
    unfolding write_json
    answer-Answered success (ok p, w) there =
        elim (Option-cases (encode_session x.format_time x.parse_time (w.objects p))) [
          | inl beyond ↦ rw beyond (inr (inr (there, (λ some_text. some_text refl), refl)))
          | inr (v, encoded) ↦ rw encoded (inr (inl (there, (λ same. cc), refl)))
        ]
    answer-Answered success (err e, w) kind = Fails-Answered ⊥ success e w kind λ m. m

  internal-Ends :
      {A : Type 0} (r : Outcome A) → ((e : Fault) → r ≡ err e → fault_status e ≡ 500) → Ends ⊥ r
  internal-Ends (ok a) codes = λ m. m
  internal-Ends (err e) codes = inr (codes e refl, λ m. m)

  no_content-Answered :
      (ctx : Ctx x struct) (r : Option Fault × World x)
      → ((e : Fault) → r.0 ≡ some e → fault_status e ≡ 500)
      → Answered ⊥ (Done r) 204 (status_of x struct (no_content x struct ctx r.0 r.1))
  no_content-Answered ctx (none, w) codes = inr (inl ((λ m. m), tt, refl))
  no_content-Answered ctx (some e, w) codes =
      Fails-Answered ⊥ ctx ⊥ 204 e w (inr (codes e refl, λ m. m)) λ m. m

-- The status code says what became of a request, whatever Redis, PostgreSQL and Kafka answer, and
-- however the goroutines that warm the cache run. It is 401 exactly if the request names no user;
-- otherwise 400 exactly if its body does not bind; otherwise, for `GetCurrent`, `Pause` and `Resume`,
-- 404 exactly if Redis has no usable session of the user and PostgreSQL answers that there is no row;
-- otherwise the code of success exactly if the service succeeds and a session that it returns can be
-- written as JSON; and 500 in the cases that are left.
pub endpoint_statuses :
    (x : External) (struct : List Field → Verdict) (ctx : Ctx x struct) (w : World x)
    → let uid = ctx.header "X-User-ID" in
      let starting = bind_json x struct decode_start start_fields ctx.post_body in
      let beating = bind_json x struct decode_heartbeat heartbeat_fields ctx.post_body in
      let changing = bind_json x struct decode_pause_resume pause_resume_fields ctx.post_body in
      Decided x struct uid starting ⊥
        (λ req. Delivers x struct (Service.start x uid req w))
        201
        (status_of x struct (start x struct ctx w))
      × Decided x struct uid
          (bound tt)
          (Missing x uid w)
          (λ _. Delivers x struct (Service.get_current x uid w))
          200
          (status_of x struct (get_current x struct ctx w))
      × Decided x struct uid beating ⊥
          (λ req. Done x struct (Service.heartbeat x uid req w))
          204
          (status_of x struct (heartbeat x struct ctx w))
      × Decided x struct uid changing
          (Missing x uid w)
          (λ req. Delivers x struct (Service.pause x uid req.device_id w))
          200
          (status_of x struct (pause x struct ctx w))
      × Decided x struct uid changing
          (Missing x uid w)
          (λ req. Delivers x struct (Service.resume x uid req.device_id w))
          200
          (status_of x struct (resume x struct ctx w))
unfolding start get_current Service.get_current heartbeat pause resume
endpoint_statuses x struct ctx w =
    let uid = ctx.header "X-User-ID" in
    (
      with_body-Decided x struct ctx w decode_start start_fields _ ⊥ _ 201 λ req.
          answer-Answered x struct ⊥ ctx 201 (Service.start x uid req w)
            (internal-Ends x struct (Service.start x uid req w).0 (start-fault x uid req w)),
      with_user-status x struct ctx w
          (Decided x struct {A = Unit {0}} uid (bound tt) (Missing x uid w)
            (λ _. Delivers x struct (get x uid w)) 200)
          _ (λ nobody. inl (nobody, refl))
          λ given.
            let answered =
              answer-Answered x struct (Missing x uid w) ctx 200 (get x uid w) (get-Ends x uid w) in
            inr (given, answered),
      with_body-Decided x struct ctx w decode_heartbeat heartbeat_fields _ ⊥ _ 204 λ req.
          no_content-Answered x struct ctx (Service.heartbeat x uid req w)
            (heartbeat-fault x uid req w),
      with_body-Decided x struct ctx w decode_pause_resume pause_resume_fields _ (Missing x uid w) _
          200
          λ req.
            answer-Answered x struct (Missing x uid w) ctx 200 (Service.pause x uid req.device_id w)
              (pause-Ends x uid req.device_id w),
      with_body-Decided x struct ctx w decode_pause_resume pause_resume_fields _ (Missing x uid w) _
          200
          λ req.
            answer-Answered x struct (Missing x uid w) ctx 200
              (Service.resume x uid req.device_id w) (resume-Ends x uid req.device_id w),
    )
