-- ===== src/Postgres/Pool.antt =====
-- What becomes of the pool that `New` opens.
use playback_service.Prelude.{◌≡◌, ◌⊎◌, refl, inl, inr, Option, none, some, [], ◌∷◌, ◌++◌}
use playback_service.Apperror.{Fault}
use playback_service.External.{Outcome, ok, err}
use playback_service.Platform.{PoolConfig, Platform, pool_opened, pool_closed}
use playback_service.Process.{Boot}
use playback_service.Postgres.{Config, pool_config, pool_hook, pinged, created, parsed, new}

-- What `New` leaves, by the error that it returns.
abbrev pub NewPool : Boot → Option Fault × Boot → Type 0
NewPool before (none, after) =
    (c : PoolConfig) × (after.env.acts ≡ before.env.acts ++ (pool_opened c ∷ []))
    × (after.hooks ≡ before.hooks ++ (pool_hook ∷ []))
NewPool before (some e, after) =
    (after.hooks ≡ before.hooks)
    × ((after.env.acts ≡ before.env.acts)
        ⊎ ((c : PoolConfig) × (after.env.acts
              ≡ (before.env.acts ++ (pool_opened c ∷ [])) ++ (pool_closed ∷ []))))

module _ (p : Platform) where
  created-NewPool : (c : PoolConfig) (r : Option Fault) (b : Boot) → NewPool b (created p c r b)
  created-NewPool c (some e) b = (refl, inl refl)
  created-NewPool c none b = pinged-NewPool (p.ping_pool (b.env.acts ++ (pool_opened c ∷ [])))
    where
      opened : Boot
      opened = record b { env = record b.env { acts = b.env.acts ++ (pool_opened c ∷ []) } }

      pinged-NewPool : (r : Option Fault) → NewPool b (pinged p c r opened)
      pinged-NewPool (some e) = (refl, inr (c, refl))
      pinged-NewPool none = (c, refl, refl)

  parsed-NewPool : (cfg : Config) (r : Outcome PoolConfig) (b : Boot) → NewPool b (parsed p cfg r b)
  parsed-NewPool cfg (err e) b = (refl, inl refl)
  parsed-NewPool cfg (ok c) b =
      created-NewPool (pool_config cfg c) (p.new_pool (pool_config cfg c) b.env.acts) b

  -- No pool is leaked: `New` returns with a pool that is open and that a stop hook will close, or with
  -- an error, no hook and no pool that is open: none was opened, or it was closed again.
  pub new-NewPool : (cfg : Config) (b : Boot) → NewPool b (new p cfg b)
  unfolding new
  new-NewPool cfg b = parsed-NewPool cfg (p.parse_dsn cfg.dsn) b
