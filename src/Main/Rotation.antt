-- ===== src/Main/Rotation.antt =====
-- When the service takes traffic: the readiness probe through its start, its life and its stop.
use mathlib.Core.List.{append_cancel_left}
use playback_service.Prelude.{
  ◌≡◌, ◌≢◌, refl, sym, ap, ◌∙◌, Bool, true, false, Bool-cases, none, inl, inr, List, [], ◌∷◌, ◌++◌,
  if◌then◌else◌,
}
use playback_service.External.{External}
use playback_service.Handler.{RequestCtx, Handler, new, set_ready}
use playback_service.Validator.{Field, Verdict}
use playback_service.Platform.{
  Act, PoolConfig, Platform, ready_set, server_shutdown, writer_closed, consumer_canceled,
  reader_closed, client_closed, pool_closed, provider_closed, migrate_opened, migrate_run,
  migrate_closed,
}
use playback_service.Process.{Env, Hook, Boot}
use playback_service.Config.{Config}
use playback_service.Server.Lifecycle.{flag_after}
use playback_service.Server.Routes.{Shared}
use playback_service.Server.Served.{Endpoint, ready_route}
use playback_service.Server.Drain.{after, probed, probed-ready, probed-drained}
use playback_service.Main.{main, IsFx}
use playback_service.Main.Startup.{provider_acts, core_acts, main-acts}
use playback_service.Main.Shutdown.{stop_acts, stop-acts}

-- None of these acts sets the flag.
abbrev pub untouched : List Act → Bool
untouched [] = true
untouched (ready_set ready ∷ acts) = false
untouched (_ ∷ acts) = untouched acts

flag_after-untouched :
    (acts : List Act) (h : Handler) → untouched acts ≡ true → flag_after acts h ≡ h
flag_after-untouched [] h e = refl
flag_after-untouched (ready_set ready ∷ acts) h e = cc
flag_after-untouched (_ ∷ acts) h e = flag_after-untouched acts h e

flag_after-append :
    (l m : List Act) (h : Handler) → flag_after (l ++ m) h ≡ flag_after m (flag_after l h)
flag_after-append [] m h = refl
flag_after-append (ready_set ready ∷ l) m h = flag_after-append l m (set_ready ready h)
flag_after-append (_ ∷ l) m h = flag_after-append l m h

-- A first part of acts that do not set the flag does not set it.
untouched-prefix : (l m : List Act) → untouched (l ++ m) ≡ true → untouched l ≡ true
untouched-prefix [] m e = refl
untouched-prefix (ready_set ready ∷ l) m e = e
untouched-prefix (_ ∷ l) m e = untouched-prefix l m e

module _ (p : Platform) (cfg : Config) where
  -- Once the first act of the stop is done, the flag is cleared.
  stopping-flag :
      (part later : List Act) (h : Handler)
      → part ++ later ≡ stop_acts p cfg
      → part ≢ []
      → (flag_after part h).ready ≡ false
  stopping-flag [] later h split begun = absurd (begun refl)
  stopping-flag (a ∷ part) later h split begun =
      let first : a ≡ ready_set false = cc in
      let rest : part ++ later
          ≡ server_shutdown
            ∷ writer_closed
            ∷ consumer_canceled
            ∷ reader_closed
            ∷ client_closed
            ∷ pool_closed
            ∷ (if cfg.tracing_enabled then provider_closed ∷ [] else []) =
        cc in
      let quiet : untouched (part ++ later) ≡ true =
        rw rest
          (elim (Bool-cases cfg.tracing_enabled) [ inl on ↦ rw on refl | inr off ↦ rw off refl ]) in
      rw first (
        ap (λ (g : Handler). g.ready)
          (flag_after-untouched part (set_ready false h) (untouched-prefix part later quiet)))

  abbrev start_acts : PoolConfig → List Act
  start_acts c =
      provider_acts p cfg ++ (migrate_opened ∷ migrate_run ∷ migrate_closed ∷ core_acts p cfg c)

  started-flag :
      (c : PoolConfig) (since : List Act)
      → untouched since ≡ true
      → flag_after (start_acts c ++ since) new ≡ new
  started-flag c since quiet = elim (Bool-cases cfg.tracing_enabled) [
    | inl on ↦ rw on (flag_after-untouched since new quiet)
    | inr off ↦ rw off (flag_after-untouched since new quiet)
  ]

-- The service takes traffic from its start until its stop begins, and never after. Let it start with
-- no error, and do what it likes since, short of setting the flag again; let it then be stopped, in
-- time. Before the stop `/readyz` answers 200, whatever requests come. Once the stop has done any of
-- its acts, be it one or all, `/readyz` answers 503, whatever requests come then. This relies on the
-- order in which fx runs the stop hooks.
pub readyz_drains :
    (p : Platform) (cfg : Config) (stop : List Hook → Env → Env) (fx : IsFx stop) (b : Boot)
    (e : Env) (since part later : List Act) (x : External) (struct : List Field → Verdict)
    (before during : List (Endpoint × RequestCtx x.Bytes)) (ctx : RequestCtx x.Bytes)
    (sh : Shared x)
    → b.hooks ≡ []
    → b.env.acts ≡ []
    → (main p cfg b).0 ≡ none
    → e.acts ≡ (main p cfg b).1.env.acts ++ since
    → untouched since ≡ true
    → fx.in_time (main p cfg b).1.hooks e
    → (stop (main p cfg b).1.hooks e).acts ≡ e.acts ++ (part ++ later)
    → part ≢ []
    → let running = after x struct before (record sh { probes = flag_after e.acts new }) in
      let stopping =
        after x struct during (record running { probes = flag_after (e.acts ++ part) new }) in
      (probed x struct ready_route ctx running ≡ 200)
      × (probed x struct ready_route ctx stopping ≡ 503)
readyz_drains p cfg stop fx b e since part later x struct before during ctx sh fresh first done acts
      quiet timely split begun =
    let (c, opened) = main-acts p cfg b done in
    let started : flag_after e.acts new ≡ new =
      ap (λ l. flag_after l new)
        (acts ∙ ap (λ l. l ++ since) (opened ∙ ap (λ l. l ++ start_acts p cfg c) first))
      ∙ started-flag p cfg c since quiet in
    let parts : part ++ later ≡ stop_acts p cfg =
      append_cancel_left e.acts _ _ (sym split ∙ stop-acts p cfg stop fx b e fresh done timely) in
    let cleared : (flag_after (e.acts ++ part) new).ready ≡ false =
      ap (λ (h : Handler). h.ready) (flag_after-append e.acts part new)
      ∙ stopping-flag p cfg part later (flag_after e.acts new) parts begun in
    (
      probed-ready x struct before ctx (record sh { probes = flag_after e.acts new })
          (ap (λ (h : Handler). h.ready) started),
      probed-drained x struct during ctx _ cleared,
    )
