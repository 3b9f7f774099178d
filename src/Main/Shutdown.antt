-- ===== src/Main/Shutdown.antt =====
-- The order in which the parts of the service stop.
use mathlib.Core.List.{reverse, append_assoc, append-nil}
use playback_service.Prelude.{
  ◌≡◌, refl, sym, ap, ◌∙◌, false, Bool-cases, Option, none, some, inl, inr, List, [], ◌∷◌, ◌++◌,
  if◌then◌else◌,
}
use playback_service.Apperror.{Fault}
use playback_service.Platform.{
  Act, Platform, pool_closed, client_closed, writer_closed, reader_closed, consumer_canceled,
  provider_closed, ready_set, server_shutdown,
}
use playback_service.Process.{Env, Hook, Boot, lift}
use playback_service.Config.{Config}
use playback_service.Postgres
use playback_service.Postgres.{pool_hook}
use playback_service.Postgres.Pool.{NewPool, new-NewPool}
use playback_service.Redis
use playback_service.Redis.{client_hook}
use playback_service.Redis.Client.{NewClient, new-NewClient}
use playback_service.Kafka.Settings.{writer_hook, new_consumer, new_producer}
use playback_service.Tracing
use playback_service.Tracing.{provider_hook, merged, dialed, exported, installed}
use playback_service.Session.Lifecycle.{consumer_hook, register_consumer}
use playback_service.Server.Lifecycle
use playback_service.Server.Lifecycle.{server_hook}
use playback_service.Main.Startup.{unless_failed-none}
use playback_service.Main.{with_server, with_consumer, main, stop_all, IsFx}

NewPool-hooks :
    (b : Boot) (r : Option Fault × Boot)
    → NewPool b r
    → r.0 ≡ none
    → r.1.hooks ≡ b.hooks ++ (pool_hook ∷ [])
NewPool-hooks b (none, after) (c, acts, hooks) done = hooks
NewPool-hooks b (some e, after) k done = cc

append-five :
    {A : Type 0} (l : List A) (a b c d e : A)
    → ((((l ++ (a ∷ [])) ++ (b ∷ [])) ++ (c ∷ [])) ++ (d ∷ [])) ++ (e ∷ [])
      ≡ l ++ (a ∷ b ∷ c ∷ d ∷ e ∷ [])
append-five l a b c d e = simp append_assoc

module _ (p : Platform) (cfg : Config) where
  installed-hooks :
      (r : Option Fault) (b : Boot)
      → (installed p cfg r b).0 ≡ none
      → (installed p cfg r b).1.hooks ≡ b.hooks ++ (provider_hook p ∷ [])
  installed-hooks none b done = refl
  installed-hooks (some e) b done = cc

  NewClient-hooks :
      (b : Boot) (r : Option Fault × Boot)
      → NewClient p cfg.redis b r
      → r.0 ≡ none
      → r.1.hooks ≡ b.hooks ++ (client_hook p ∷ [])
  NewClient-hooks b (none, after) k done = k.1
  NewClient-hooks b (some e, after) k done = cc

  with_server-hooks :
      (b : Boot)
      → (with_server p cfg b).1.hooks
        ≡ (b.hooks ++ (writer_hook p ∷ [])) ++ (server_hook p cfg ∷ [])
  unfolding new_producer Lifecycle.register
  with_server-hooks b = refl

  -- The hooks of the start-up but that of the tracer.
  abbrev core_hooks : List Hook
  core_hooks = pool_hook ∷ client_hook p ∷ consumer_hook p ∷ writer_hook p ∷ server_hook p cfg ∷ []

  with_consumer-hooks :
      (b : Boot)
      → (with_consumer p cfg b).0 ≡ none
      → (with_consumer p cfg b).1.hooks ≡ b.hooks ++ core_hooks
  unfolding new_consumer register_consumer new_producer Lifecycle.register
  with_consumer-hooks b done =
      let f = Postgres.new p cfg.postgres b in
      let g = Redis.new p cfg.redis f.1 in
      let (opened, rest) = unless_failed-none f.0 _ f.1 done in
      let (reached, last) =
        unless_failed-none g.0 _ g.1 (ap (λ (r : Option Fault × Boot). r.0) (sym rest) ∙ done) in
      let first = NewPool-hooks b f (new-NewPool p cfg.postgres b) opened in
      let second = NewClient-hooks f.1 g (new-NewClient p cfg.redis f.1) reached in
      ap (λ (r : Option Fault × Boot). r.1.hooks) rest
      ∙ ap (λ (r : Option Fault × Boot). r.1.hooks) last
      ∙ ap
          (λ hs.
            ((hs ++ (consumer_hook p ∷ [])) ++ (writer_hook p ∷ [])) ++ (server_hook p cfg ∷ []))
          (second ∙ ap (λ hs. hs ++ (client_hook p ∷ [])) first)
      ∙ append-five b.hooks pool_hook (client_hook p) (consumer_hook p) (writer_hook p)
          (server_hook p cfg)

  abbrev provider_hooks : List Hook
  provider_hooks = if cfg.tracing_enabled then provider_hook p ∷ [] else []

  register-hooks :
      (b : Boot)
      → (Tracing.register p cfg b).0 ≡ none
      → (Tracing.register p cfg b).1.hooks ≡ b.hooks ++ provider_hooks
  unfolding Tracing.register
  register-hooks b done = elim (Bool-cases cfg.tracing_enabled) [
    | inl on ↦ rw on (installed-hooks _ _ (rw on at done))
    | inr off ↦ rw off (sym (append-nil b.hooks))
  ]

  main-hooks :
      (b : Boot)
      → (main p cfg b).0 ≡ none
      → (main p cfg b).1.hooks ≡ b.hooks ++ (provider_hooks ++ core_hooks)
  unfolding main
  main-hooks b done =
      let f = Tracing.register p cfg b in
      let g = lift (Postgres.run_migrations p cfg.postgres.dsn "./migrations") f.1 in
      let (traced, rest) = unless_failed-none f.0 _ f.1 done in
      let (migrated, last) =
        unless_failed-none g.0 _ g.1 (ap (λ (r : Option Fault × Boot). r.0) (sym rest) ∙ done) in
      ap (λ (r : Option Fault × Boot). r.1.hooks) (rest ∙ last)
      ∙ with_consumer-hooks g.1 (ap (λ (r : Option Fault × Boot). r.0) (sym (rest ∙ last)) ∙ done)
      ∙ ap (λ hs. hs ++ core_hooks) (register-hooks b traced)
      ∙ append_assoc b.hooks provider_hooks core_hooks

  -- What the stop of the service does, in order.
  abbrev pub stop_acts : List Act
  stop_acts =
      ready_set false
      ∷ server_shutdown
      ∷ writer_closed
      ∷ consumer_canceled
      ∷ reader_closed
      ∷ client_closed
      ∷ pool_closed
      ∷ (if cfg.tracing_enabled then provider_closed ∷ [] else [])

  stop_all-acts :
      (e : Env) → (stop_all (reverse (provider_hooks ++ core_hooks)) e).acts ≡ e.acts ++ stop_acts
  stop_all-acts e = elim (Bool-cases cfg.tracing_enabled) [
    | inl on ↦ rw on (simp append_assoc)
    | inr off ↦ rw off (simp append_assoc)
  ]

-- The service stops in order. After a start-up with no error, a stop with enough time takes the
-- service out of rotation, then shuts the server down, and closes what requests use only after that:
-- the producer, the consumer with its reader, Redis, PostgreSQL and last the tracer, if it is enabled.
-- No error on the way keeps a part from being closed. This relies on the order in which fx runs the
-- stop hooks.
pub stop-acts :
    (p : Platform) (cfg : Config) (stop : List Hook → Env → Env) (fx : IsFx stop) (b : Boot)
    (e : Env)
    → b.hooks ≡ []
    → (main p cfg b).0 ≡ none
    → fx.in_time (main p cfg b).1.hooks e
    → (stop (main p cfg b).1.hooks e).acts ≡ e.acts ++ stop_acts p cfg
stop-acts p cfg stop fx b e fresh done timely =
    let hooks =
      main-hooks p cfg b done ∙ ap (λ hs. hs ++ (provider_hooks p cfg ++ core_hooks p cfg)) fresh in
    ap (λ (r : Env). r.acts) (fx.reverses (main p cfg b).1.hooks e timely)
    ∙ ap (λ hs. (stop_all (reverse hs) e).acts) hooks
    ∙ stop_all-acts p cfg e
