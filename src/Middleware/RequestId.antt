-- ===== src/Middleware/RequestId.antt =====
-- What the drawing of a request id leaves of the process.
use playback_service.Prelude.{◌≡◌, refl, Bool-cases, inl, inr, ◌==◌}
use playback_service.Middleware.{State, request_id_header, with_id, span_started}

module _ {Bytes W : Type 0} (s : State Bytes W) where
  -- The id of a request is drawn without an effect on what was counted and logged.
  pub with_id-samples : (with_id s).1.samples ≡ s.process.samples
  with_id-samples = elim (Bool-cases (s.ctx.header request_id_header == "")) [
    | inl missing ↦ rw missing refl
    | inr given ↦ rw given refl
  ]

  pub with_id-lines : (with_id s).1.lines ≡ s.process.lines
  with_id-lines = elim (Bool-cases (s.ctx.header request_id_header == "")) [
    | inl missing ↦ rw missing refl
    | inr given ↦ rw given refl
  ]

  pub with_id-trace :
      (with_id s).1.tracer.trace_id (span_started (with_id s).1 s.ctx)
      ≡ s.process.tracer.trace_id (span_started s.process s.ctx)
  with_id-trace = elim (Bool-cases (s.ctx.header request_id_header == "")) [
    | inl missing ↦ rw missing refl
    | inr given ↦ rw given refl
  ]
