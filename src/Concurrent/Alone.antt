-- ===== src/Concurrent/Alone.antt =====
-- A run that nobody interrupts does what the code does in one step.
pub mod Repository
pub mod Service
pub mod Consumer
pub mod Handler
use playback_service.Prelude.{◌≡◌, ◌∙◌, ap}
use playback_service.External.{External}
use playback_service.World.{World, M}
use playback_service.Concurrent.{Prog, run, run-bind, ◌>>=◌}

module _ {x : External} where
  -- The calls in a row are the one step.
  abbrev pub Runs : {A : Type 0} → Prog x A → M x A → Type 0
  Runs p m = (w : World x) → run p w ≡ m w

  pub Runs-bind :
      {A B : Type 0} (p : Prog x A) (m : M x A) (f : A → Prog x B) (g : A → M x B)
      → Runs p m
      → ((a : A) → Runs (f a) (g a))
      → Runs (p >>= f) (λ w. g (m w).0 (m w).1)
  Runs-bind p m f g first next w =
      run-bind p f w ∙ ap (λ r. run (f r.0) r.1) (first w) ∙ next (m w).0 (m w).1
