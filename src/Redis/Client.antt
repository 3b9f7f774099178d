-- ===== src/Redis/Client.antt =====
-- What becomes of the client that `New` opens.
use playback_service.Prelude.{◌≡◌, refl, Option, none, some, [], ◌∷◌, ◌++◌}
use playback_service.Apperror.{Fault}
use playback_service.Platform.{Platform, client_opened}
use playback_service.Process.{Boot}
use playback_service.Redis.{Config, options, client_hook, pinged, metered, traced, new}

module _ (p : Platform) (cfg : Config) where
  -- What `New` leaves, by the error that it returns.
  abbrev pub NewClient : Boot → Option Fault × Boot → Type 0
  NewClient before (none, after) =
      (after.env.acts ≡ before.env.acts ++ (client_opened (options cfg) ∷ []))
      × (after.hooks ≡ before.hooks ++ (client_hook p ∷ []))
  NewClient before (some e, after) =
      (after.env.acts ≡ before.env.acts ++ (client_opened (options cfg) ∷ []))
      × (after.hooks ≡ before.hooks)

  module _ (b : Boot) where
    opened : Boot
    opened = record b {
      env = record b.env { acts = b.env.acts ++ (client_opened (options cfg) ∷ []) };
    }

    pinged-NewClient : (r : Option Fault) → NewClient b (pinged p cfg r opened)
    unfolding opened
    pinged-NewClient (some e) = (refl, refl)
    pinged-NewClient none = (refl, refl)

    metered-NewClient : (r : Option Fault) → NewClient b (metered p cfg r opened)
    unfolding opened
    metered-NewClient (some e) = (refl, refl)
    metered-NewClient none = pinged-NewClient (p.ping_client opened.env.acts)

    traced-NewClient : (r : Option Fault) → NewClient b (traced p cfg r opened)
    unfolding opened
    traced-NewClient (some e) = (refl, refl)
    traced-NewClient none = metered-NewClient (p.instrument_metrics opened.env.acts)

    -- A client that cannot be reached is leaked: `New` opens one in every case, gives it a stop hook
    -- only if it returns no error, and never closes it.
    pub new-NewClient : NewClient b (new p cfg b)
    unfolding new opened
    new-NewClient = traced-NewClient (p.instrument_tracing opened.env.acts)
