-- ===== src/Session/Handler/Statuses.antt =====
-- The status codes of the endpoints.
use playback_service.Prelude.{ℕ, ◌≡◌, Bool-cases, Option, none, some, List, inl, inr, arith}
use playback_service.Apperror.{Fault, Error, http_status}
use playback_service.Json.{Json}
use playback_service.External.{External, unmarshal}
use playback_service.World.{World}
use playback_service.Handler.{write_error}
use playback_service.Validator.{
  Field, Verdict, valid, violations, invalid, refused, check, checked, bind_json,
}
use playback_service.Session.Service.Faults.{fault_status}
use playback_service.Session.Handler.{Ctx, write_service_error}

check-refused :
    {A : Type 0} (v : Verdict) (dst : A) (e : Error) → check v dst ≡ refused e → http_status e ≡ 400
check-refused valid dst e h = cc
check-refused (violations ve) dst e h = ground arith
check-refused (invalid f) dst e h = ground arith

module _ (x : External) (struct : List Field → Verdict) where
  checked-refused :
      {A : Type 0} (fields : A → List Field) (body : x.Bytes) (o : Option A) (e : Error)
      → checked x struct fields body o ≡ refused e
      → http_status e ≡ 400
  checked-refused fields body none e h = ground arith
  checked-refused fields body (some dst) e h = check-refused (struct (fields dst)) dst e h

  -- A refused body is a bad request.
  pub bind_json-refused :
      {A : Type 0} (decode : Json → Option A) (fields : A → List Field) (body : x.Bytes) (e : Error)
      → bind_json x struct decode fields body ≡ refused e
      → http_status e ≡ 400
  unfolding bind_json
  bind_json-refused decode fields body e h = elim (Bool-cases (x.is_empty body)) [
    | inl none_given ↦ ground arith
    | inr given ↦ checked-refused fields body (unmarshal x decode body) e (rw given at h)
  ]

  -- The status of a response.
  abbrev pub status_of : Ctx x struct × World x → ℕ
  status_of r = r.0.response.status

  pub write_service_error-status :
      (ctx : Ctx x struct) (e : Fault) (w : World x)
      → status_of (write_service_error x struct ctx e w) ≡ fault_status e
  unfolding write_service_error write_error
  write_service_error-status ctx e w = ground arith
