-- ===== src/Postgres/Migrations.antt =====
-- What `RunMigrations` answers and leaves.
use playback_service.Prelude.{
  String, ◌<>◌, ◌≡◌, refl, ◌∙◌, ap, Bool-cases, inl, inr, Option, none, some, [], ◌∷◌, ◌++◌,
  if◌then◌else◌,
}
use mathlib.Core.List.{append_assoc}
use playback_service.Apperror.{Fault, wrapped, no_change, is}
use playback_service.Platform.{Platform, migrate_opened, migrate_run, migrate_closed}
use playback_service.Process.{Env}
use playback_service.Postgres.{close_warning, close_migrations, upped, opened, run_migrations}

-- The error of `RunMigrations`, by the one of `Up`.
abbrev pub up_error : Option Fault → Option Fault
up_error none = none
up_error (some e) = if is e no_change then none else some (wrapped "run migrations" e)

module _ (p : Platform) where
  -- What `RunMigrations` leaves, by the error with which the source and the database open.
  abbrev pub Migrated : Env → Option Fault → Option Fault × Env → Type 0
  Migrated before (some e) r = (r.0 ≡ some (wrapped "init migrations" e)) × (r.1.acts ≡ before.acts)
  Migrated before none r =
      (r.0 ≡ up_error (p.migrate_up (before.acts ++ (migrate_opened ∷ []))))
      × (r.1.acts ≡ before.acts ++ (migrate_opened ∷ migrate_run ∷ migrate_closed ∷ []))

  close_warning-acts :
      (message : String) (r : Option Fault) (e : Env)
      → (close_warning p message r e).1.acts ≡ e.acts
  close_warning-acts message none e = refl
  close_warning-acts message (some f) e = refl

  close_migrations-acts :
      (e : Env) → (close_migrations p e).1.acts ≡ e.acts ++ (migrate_closed ∷ [])
  close_migrations-acts e =
      close_warning-acts "migrate database close error" _ _
      ∙ close_warning-acts "migrate source close error" _ _

  upped-acts : (r : Option Fault) (e : Env) → (upped p r e).1.acts ≡ e.acts
  upped-acts none e = refl
  upped-acts (some f) e = elim (Bool-cases (is f no_change)) [
    | inl same ↦ rw same refl
    | inr other ↦ rw other refl
  ]

  upped_error : (r : Option Fault) (e : Env) → (upped p r e).0 ≡ up_error r
  upped_error none e = refl
  upped_error (some f) e = elim (Bool-cases (is f no_change)) [
    | inl same ↦ rw same refl
    | inr other ↦ rw other refl
  ]

  opened-Migrated : (r : Option Fault) (e : Env) → Migrated e r (opened p r e)
  opened-Migrated (some f) e = (refl, refl)
  opened-Migrated none e =
      let acts = e.acts ++ (migrate_opened ∷ []) in
      let failed = p.migrate_up acts in
      let run = record e { acts = acts ++ (migrate_run ∷ []) } in
      (
        upped_error failed run,
        close_migrations-acts (upped p failed run).1
            ∙ ap (λ l. l ++ (migrate_closed ∷ [])) (upped-acts failed run)
            ∙ simp append_assoc,
      )

  -- The migrations are applied and their handle is closed. Where the source or the database does not
  -- open, `RunMigrations` says so and nothing is left open. Where they do, it applies the migrations
  -- once, closes both whatever happened, and returns no error exactly if the migrations succeeded or
  -- there were none to apply.
  pub run_migrations-Migrated :
      (dsn migrations_path : String) (e : Env)
      → Migrated e
          (p.new_migrate ("file://" <> migrations_path) dsn e.acts)
          (run_migrations p dsn migrations_path e)
  unfolding run_migrations
  run_migrations-Migrated dsn migrations_path e =
      opened-Migrated (p.new_migrate ("file://" <> migrations_path) dsn e.acts) e
