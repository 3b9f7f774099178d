-- ===== src/Handler/Responds.antt =====
-- internal/handler/handler.go: what a handler leaves of a request context.
use playback_service.Prelude.{ℕ, ◌≡◌, refl, Bool-cases, inl, inr, Option, none, some}
use playback_service.Apperror.{Error}
use playback_service.Json.{Json}
use playback_service.Handler.{
  Response, RequestCtx, Handler, set_status_code, write_json, write_error, healthz, example, readyz,
}

-- A handler that changes nothing but the status, the content type and the body of the response.
pub record Responds {Bytes : Type 0} (before after : RequestCtx Bytes) : Type 0 where
  pub method : after.method ≡ before.method
  pub path : after.path ≡ before.path
  pub user_value : after.user_value ≡ before.user_value
  pub headers : after.response.headers ≡ before.response.headers

module _ {Bytes : Type 0} (ctx : RequestCtx Bytes) where
  response-Responds :
      (r : Response) → r.headers ≡ ctx.response.headers → Responds ctx (record ctx { response = r })
  response-Responds r kept = record {
    method = refl;
    path = refl;
    user_value = refl;
    headers = kept;
  }

  pub write_json-Responds : (n : ℕ) (v : Option Json) → Responds ctx (write_json ctx n v)
  unfolding write_json
  write_json-Responds n none = response-Responds _ refl
  write_json-Responds n (some v) = response-Responds _ refl

  pub write_error-Responds : (e : Error) → Responds ctx (write_error ctx e)
  unfolding write_error
  write_error-Responds e = response-Responds _ refl

  pub set_status_code-Responds : (n : ℕ) → Responds ctx (set_status_code n ctx)
  set_status_code-Responds n = response-Responds _ refl

  pub healthz-Responds : Responds ctx (healthz ctx)
  unfolding healthz
  healthz-Responds = response-Responds _ refl

  pub example-Responds : Responds ctx (example ctx)
  unfolding example
  example-Responds = response-Responds _ refl

  pub readyz-Responds : (h : Handler) → Responds ctx (readyz h ctx)
  unfolding readyz
  readyz-Responds h = elim (Bool-cases h.ready) [
    | inl up ↦ rw up (response-Responds _ refl)
    | inr down ↦ rw down (response-Responds _ refl)
  ]
