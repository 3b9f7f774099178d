-- ===== src/Session/Handler/Acknowledged.antt =====
-- What an acknowledged heartbeat means.
use playback_service.Prelude.{
  ◌≡◌, ◌≢◌, ◌⊎◌, ◌∙◌, sym, refl, false, Bool-cases, Option, none, some, List, inl, inr, ◌==◌, ℤ,
  pos, negsuc, is_negative, arith,
}
use playback_service.Apperror.{Fault}
use playback_service.Session.Model.{HeartbeatRequest, decode_heartbeat}
use playback_service.External.{External}
use playback_service.External.Laws.{IsReadable, IsPostgres, IsKafka}
use playback_service.World.{World, M}
use playback_service.Handler.{write_error}
use playback_service.Validator.{Field, min, number, Verdict, Bound, bound, refused, bind_json}
use playback_service.Session.Service
use playback_service.Session.Service.Faults.{fault_status, heartbeat-fault}
use playback_service.Session.Repository.Rows.{Persists}
use playback_service.Session.Requests.{decode_heartbeat-fits}
use playback_service.Session.Service.Heartbeat.{beat, Queued, heartbeat_durable}
use playback_service.Validator.Laws.{Satisfies, IsValidator, bind_json-bound}
use playback_service.Session.Handler.Statuses.{write_service_error-status, bind_json-refused}
use playback_service.Session.Handler.{
  Ctx, with_user, or_refuse, with_body, heartbeat, no_content, heartbeat_fields,
}

module _ (x : External) (struct : List Field → Verdict) (ctx : Ctx x struct) (w : World x) where
  -- A heartbeat that an acknowledgement stands for.
  record Accepted (after : World x) : Type 0 where
    request : HeartbeatRequest
    body : bind_json x struct decode_heartbeat heartbeat_fields ctx.post_body ≡ bound request
    result : (Service.heartbeat x (ctx.header "X-User-ID") request w).0 ≡ none
    world : after ≡ (Service.heartbeat x (ctx.header "X-User-ID") request w).1

  -- The endpoint behind its guards.
  served : HeartbeatRequest → M x (Ctx x struct)
  served req v =
      let r = Service.heartbeat x (ctx.header "X-User-ID") req v in no_content x struct ctx r.0 r.1

  no_content-204 :
      (r : Option Fault × World x)
      → ((e : Fault) → r.0 ≡ some e → fault_status e ≡ 500)
      → (no_content x struct ctx r.0 r.1).0.response.status ≡ 204
      → (r.0 ≡ none) × ((no_content x struct ctx r.0 r.1).1 ≡ r.1)
  no_content-204 (none, v) kinds code = (refl, refl)
  no_content-204 (some e, v) kinds code =
      absurd (omega (arith, sym (write_service_error-status x struct ctx e v) ∙ code, kinds e refl))

  or_refuse-Accepted :
      (b : Bound HeartbeatRequest)
      → bind_json x struct decode_heartbeat heartbeat_fields ctx.post_body ≡ b
      → (or_refuse x struct ctx b served w).0.response.status ≡ 204
      → Accepted (or_refuse x struct ctx b served w).1
  unfolding write_error served
  or_refuse-Accepted (refused e) body code = absurd (
      omega (
        arith,
        bind_json-refused x struct decode_heartbeat heartbeat_fields ctx.post_body e body,
        code,
      ))
  or_refuse-Accepted (bound req) body code =
      let uid = ctx.header "X-User-ID" in
      let (result, world) =
        no_content-204 (Service.heartbeat x uid req w) (heartbeat-fault x uid req w) code in
      record { request = req; body = body; result = result; world = world }

  heartbeat-Accepted :
      (heartbeat x struct ctx w).0.response.status ≡ 204 → Accepted (heartbeat x struct ctx w).1
  unfolding heartbeat with_user with_body served write_error
  heartbeat-Accepted code = elim (Bool-cases (ctx.header "X-User-ID" == "")) [
    | inl missing ↦ absurd (omega (arith, rw missing at code))
    | inr given ↦ rw given (
        or_refuse-Accepted (bind_json x struct decode_heartbeat heartbeat_fields ctx.post_body) refl
          (rw given at code))
  ]

min_zero : (z : ℤ) → Satisfies (number z) (min 0) → is_negative z ≡ false
min_zero (pos n) h = refl
min_zero (negsuc n) h = absurd h

-- A heartbeat answered with 204 was well formed and is kept: its body binds to a request with a
-- track, a device and a position that is not negative, and the session of that request is at the
-- end of the heartbeat topic, in a message from which the consumer reads exactly it, or is the
-- row of the user as far as the columns keep it, with no other row changed. This relies on the
-- laws of Kafka with a synchronous writer, which is the default, PostgreSQL, the text forms and the
-- validator.
pub heartbeat_acknowledged :
    {x : External} (readable : IsReadable x) (pg : IsPostgres x) (kafka : IsKafka x)
    (struct : List Field → Verdict) (lawful : IsValidator struct) (ctx : Ctx x struct) (w : World x)
    → (heartbeat x struct ctx w).0.response.status ≡ 204
    → (req : HeartbeatRequest) × (bind_json x struct decode_heartbeat heartbeat_fields ctx.post_body
        ≡ bound req)
      × ((req.track_id ≢ "") × (req.device_id ≢ "") × (is_negative req.position ≡ false))
      × (Queued x (ctx.header "X-User-ID") req w kafka (heartbeat x struct ctx w).1
          ⊎ Persists pg
              (beat x (ctx.header "X-User-ID") req w)
              w.db
              (heartbeat x struct ctx w).1.db)
heartbeat_acknowledged {x} readable pg kafka struct lawful ctx w code =
    let a = heartbeat-Accepted x struct ctx w code in
    let ((v, parsed, decoded), fields) =
      bind_json-bound x struct decode_heartbeat heartbeat_fields ctx.post_body a.request lawful
        a.body in
    (
      a.request,
      a.body,
      (fields.0.0, fields.1.1.0.0, min_zero a.request.position fields.1.0.0),
      rw a.world (
          heartbeat_durable readable pg kafka (ctx.header "X-User-ID") a.request w
            (decode_heartbeat-fits v a.request decoded) a.result),
    )
