-- ===== src/Server/Drain.antt =====
-- The readiness probe among other requests.
use playback_service.Prelude.{ℕ, ◌≡◌, refl, ap, ◌∙◌, true, false, List, [], ◌∷◌}
use playback_service.External.{External}
use playback_service.Handler.{RequestCtx, readyz}
use playback_service.Validator.{Field, Verdict}
use playback_service.Server.Routes.{Shared}
use playback_service.Server.Served.{
  Endpoint, health_route, ready_route, example_route, start_route, current_route, heartbeat_route,
  pause_route, resume_route, handle,
}

module _ (x : External) (struct : List Field → Verdict) where
  -- What is shared after these requests.
  abbrev pub after : List (Endpoint × RequestCtx x.Bytes) → Shared x → Shared x
  after [] sh = sh
  after ((e, ctx) ∷ rest) sh = after rest (handle x struct e ctx sh).1

  handle-probes :
      (e : Endpoint) (ctx : RequestCtx x.Bytes) (sh : Shared x)
      → (handle x struct e ctx sh).1.probes ≡ sh.probes
  handle-probes health_route ctx sh = refl
  handle-probes ready_route ctx sh = refl
  handle-probes example_route ctx sh = refl
  handle-probes start_route ctx sh = refl
  handle-probes current_route ctx sh = refl
  handle-probes heartbeat_route ctx sh = refl
  handle-probes pause_route ctx sh = refl
  handle-probes resume_route ctx sh = refl

  after-probes :
      (rs : List (Endpoint × RequestCtx x.Bytes)) (sh : Shared x) → (after rs sh).probes ≡ sh.probes
  after-probes [] sh = refl
  after-probes ((e, ctx) ∷ rest) sh =
      after-probes rest (handle x struct e ctx sh).1 ∙ handle-probes e ctx sh

  -- The status with which a probe is answered.
  abbrev pub probed : Endpoint → RequestCtx x.Bytes → Shared x → ℕ
  probed e ctx sh = (handle x struct e ctx sh).0.response.status

  -- The probe answers by the flag, whatever requests come between.
  pub probed-ready :
      (rs : List (Endpoint × RequestCtx x.Bytes)) (ctx : RequestCtx x.Bytes) (sh : Shared x)
      → sh.probes.ready ≡ true
      → probed ready_route ctx (after rs sh) ≡ 200
  unfolding readyz
  probed-ready rs ctx sh set =
      let kept : (after rs sh).probes.ready ≡ true = ap (λ p. p.ready) (after-probes rs sh) ∙ set in
      rw (kept, probed) refl

  pub probed-drained :
      (rs : List (Endpoint × RequestCtx x.Bytes)) (ctx : RequestCtx x.Bytes) (sh : Shared x)
      → sh.probes.ready ≡ false
      → probed ready_route ctx (after rs sh) ≡ 503
  unfolding readyz
  probed-drained rs ctx sh cleared =
      let kept : (after rs sh).probes.ready ≡ false =
        ap (λ p. p.ready) (after-probes rs sh) ∙ cleared in
      rw (kept, probed) refl
