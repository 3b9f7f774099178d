-- ===== src/Main/Startup.antt =====
-- The order in which the parts of the service are opened.
use mathlib.Core.List.{append_assoc, append-nil}
use playback_service.Prelude.{
  ◌<>◌, ◌≡◌, refl, sym, ap, ◌∙◌, Bool-cases, Option, none, some, inl, inr, List, [], ◌∷◌, ◌++◌,
  if◌then◌else◌,
}
use playback_service.Apperror.{Fault}
use playback_service.Platform.{
  Act, PoolConfig, Platform, pool_opened, client_opened, writer_opened, reader_opened,
  migrate_opened, migrate_run, migrate_closed, provider_set,
}
use playback_service.Process.{Env, Boot, lift}
use playback_service.Config.{Config}
use playback_service.Postgres
use playback_service.Postgres.Pool.{NewPool, new-NewPool}
use playback_service.Postgres.Migrations.{Migrated, run_migrations-Migrated}
use playback_service.Redis
use playback_service.Redis.Client.{NewClient, new-NewClient}
use playback_service.Kafka.Settings.{new_writer, reader_config, new_consumer, new_producer}
use playback_service.Tracing
use playback_service.Tracing.{exported, dialed, merged, installed}
use playback_service.Session.Lifecycle.{register_consumer}
use playback_service.Server.Lifecycle
use playback_service.Main.{unless_failed, with_consumer, main}

pub unless_failed-none :
    (r : Option Fault) (next : Boot → Option Fault × Boot) (b : Boot)
    → (unless_failed r next b).0 ≡ none
    → (r ≡ none) × (unless_failed r next b ≡ next b)
unless_failed-none (some e) next b done = cc
unless_failed-none none next b done = (refl, refl)

NewPool-acts :
    (b : Boot) (r : Option Fault × Boot)
    → NewPool b r
    → r.0 ≡ none
    → (c : PoolConfig) × (r.1.env.acts ≡ b.env.acts ++ (pool_opened c ∷ []))
NewPool-acts b (none, after) (c, acts, hooks) done = (c, acts)
NewPool-acts b (some e, after) k done = cc

module _ (p : Platform) (cfg : Config) where
  NewClient-acts :
      (b : Boot) (r : Option Fault × Boot)
      → NewClient p cfg.redis b r
      → r.1.env.acts ≡ b.env.acts ++ (client_opened (Redis.options cfg.redis) ∷ [])
  NewClient-acts b (none, after) k = k.0
  NewClient-acts b (some e, after) k = k.0

  Migrated-acts :
      (e : Env) (f : Option Fault) (r : Option Fault × Env)
      → Migrated p e f r
      → r.0 ≡ none
      → r.1.acts ≡ e.acts ++ (migrate_opened ∷ migrate_run ∷ migrate_closed ∷ [])
  Migrated-acts e (some f) r (failed, acts) done = cc (failed, done)
  Migrated-acts e none r (result, acts) done = acts

  abbrev pub provider_acts : List Act
  provider_acts = if cfg.tracing_enabled then provider_set cfg.service_name ∷ [] else []

  exported-acts :
      (r : Option Fault) (e : Env)
      → (exported p cfg.service_name r e).0 ≡ none
      → (exported p cfg.service_name r e).1.acts ≡ e.acts ++ (provider_set cfg.service_name ∷ [])
  exported-acts none e done = refl
  exported-acts (some f) e done = cc

  dialed-acts :
      (r : Option Fault) (e : Env)
      → (dialed p cfg.service_name cfg.otlp_endpoint r e).0 ≡ none
      → (dialed p cfg.service_name cfg.otlp_endpoint r e).1.acts
        ≡ e.acts ++ (provider_set cfg.service_name ∷ [])
  dialed-acts none e done = exported-acts (p.new_exporter cfg.otlp_endpoint) e done
  dialed-acts (some f) e done = cc

  merged-acts :
      (r : Option Fault) (e : Env)
      → (merged p cfg.service_name cfg.otlp_endpoint r e).0 ≡ none
      → (merged p cfg.service_name cfg.otlp_endpoint r e).1.acts
        ≡ e.acts ++ (provider_set cfg.service_name ∷ [])
  merged-acts none e done = dialed-acts (p.new_grpc_client cfg.otlp_endpoint) e done
  merged-acts (some f) e done = cc

  installed-acts :
      (r : Option Fault) (b : Boot)
      → (installed p cfg r b).0 ≡ none
      → (r ≡ none) × ((installed p cfg r b).1.env.acts ≡ b.env.acts)
  installed-acts none b done = (refl, refl)
  installed-acts (some e) b done = cc

  register-acts :
      (b : Boot)
      → (Tracing.register p cfg b).0 ≡ none
      → (Tracing.register p cfg b).1.env.acts ≡ b.env.acts ++ provider_acts
  unfolding Tracing.register Tracing.setup
  register-acts b done = elim (Bool-cases cfg.tracing_enabled) [
    | inl on ↦
        let m =
          merged p cfg.service_name cfg.otlp_endpoint (p.merge_resource cfg.service_name) b.env in
        let (set, kept) = installed-acts m.0 (record b { env = m.1 }) (rw on at done) in
        rw on (kept ∙ merged-acts (p.merge_resource cfg.service_name) b.env set)
    | inr off ↦ rw off (sym (append-nil b.env.acts))
  ]

  -- What a start-up opens after the tracer, with the settings of the pool.
  abbrev pub core_acts : PoolConfig → List Act
  core_acts c =
      pool_opened c
      ∷ client_opened (Redis.options cfg.redis)
      ∷ reader_opened (reader_config cfg.kafka_consumer)
      ∷ writer_opened (new_writer cfg.kafka)
      ∷ []

  with_consumer-acts :
      (b : Boot)
      → (with_consumer p cfg b).0 ≡ none
      → (c : PoolConfig) × ((with_consumer p cfg b).1.env.acts ≡ b.env.acts ++ core_acts c)
  unfolding new_consumer register_consumer new_producer Lifecycle.register
  with_consumer-acts b done =
      let f = Postgres.new p cfg.postgres b in
      let g = Redis.new p cfg.redis f.1 in
      let (opened, rest) = unless_failed-none f.0 _ f.1 done in
      let (reached, last) =
        unless_failed-none g.0 _ g.1 (ap (λ (r : Option Fault × Boot). r.0) (sym rest) ∙ done) in
      let (c, first) = NewPool-acts b f (new-NewPool p cfg.postgres b) opened in
      let second = NewClient-acts f.1 g (new-NewClient p cfg.redis f.1) in
      (
        c,
        ap (λ (r : Option Fault × Boot). r.1.env.acts) (rest ∙ last)
            ∙ ap
                (λ l.
                  (l ++ (reader_opened (reader_config cfg.kafka_consumer) ∷ []))
                  ++ (writer_opened (new_writer cfg.kafka) ∷ []))
                (second ∙ ap (λ l. l ++ (client_opened (Redis.options cfg.redis) ∷ [])) first)
            ∙ simp append_assoc,
      )

  -- Nothing is served before all of it is there. A start-up with no error has opened every part once
  -- and in this order: the tracer if it is enabled; the migrations, which it has run and closed; the
  -- pool of PostgreSQL; the client of Redis; the reader and the writer of Kafka. It has neither
  -- started the consumer nor listened, which is for the start hooks.
  pub main-acts :
      (b : Boot)
      → (main p cfg b).0 ≡ none
      → (c : PoolConfig) × ((main p cfg b).1.env.acts
          ≡ b.env.acts
            ++ (provider_acts ++ (migrate_opened ∷ migrate_run ∷ migrate_closed ∷ core_acts c)))
  unfolding main
  main-acts b done =
      let f = Tracing.register p cfg b in
      let m = Postgres.run_migrations p cfg.postgres.dsn "./migrations" f.1.env in
      let g = lift (Postgres.run_migrations p cfg.postgres.dsn "./migrations") f.1 in
      let (traced, rest) = unless_failed-none f.0 _ f.1 done in
      let (migrated, last) =
        unless_failed-none g.0 _ g.1 (ap (λ (r : Option Fault × Boot). r.0) (sym rest) ∙ done) in
      let first = register-acts b traced in
      let second =
        Migrated-acts f.1.env
          (p.new_migrate ("file://" <> "./migrations") cfg.postgres.dsn f.1.env.acts) m
          (run_migrations-Migrated p cfg.postgres.dsn "./migrations" f.1.env) migrated in
      let (c, third) =
        with_consumer-acts g.1 (ap (λ (r : Option Fault × Boot). r.0) (sym (rest ∙ last)) ∙ done) in
      (
        c,
        ap (λ (r : Option Fault × Boot). r.1.env.acts) (rest ∙ last)
            ∙ third
            ∙ ap (λ l. l ++ core_acts c)
                (second ∙ ap (λ l. l ++ (migrate_opened ∷ migrate_run ∷ migrate_closed ∷ [])) first)
            ∙ simp append_assoc,
      )
