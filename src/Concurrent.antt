-- ===== src/Concurrent.antt =====
-- Requests and messages that run at the same time. A run of the code is a tree of its calls: what it
-- does next depends on what the last call answered, and between two calls others may run.
pub mod Repository
pub mod Service
pub mod Consumer
pub mod Handler
pub mod Alone
pub mod System
pub mod Safe
pub mod Bounded
use playback_service.Prelude.{◌≡◌, refl}
use playback_service.External.{External}
use playback_service.World.{World, M}

module _ (x : External) where
  pub data Prog {ℓ} (A : Type ℓ) : Type (ℓ ⊔ 1) where
    ret : A → Prog A
    call : {B : Type 0} → M x B → (B → Prog A) → Prog A

module _ {x : External} where
  -- A single call.
  abbrev pub does : {A : Type 0} → M x A → Prog x A
  does m = call m ret

  infixl 5 ◌>>=◌ ◌>>◌
  unfoldable pub ◌>>=◌ : {A B : Type 0} → Prog x A → (A → Prog x B) → Prog x B
  ret a >>= f = f a
  call m k >>= f = call m λ b. k b >>= f

  unfoldable pub ◌>>◌ : {A B : Type 0} → Prog x A → Prog x B → Prog x B
  unfolding ◌>>=◌
  p >> q = p >>= λ a. q

  -- All the calls in a row, with no one else between them.
  unfoldable pub run : {A : Type 0} → Prog x A → M x A
  run (ret a) w = (a, w)
  run (call m k) w = let (b, v) = m w in run (k b) v

  pub run-bind :
      {A B : Type 0} (p : Prog x A) (f : A → Prog x B) (w : World x)
      → run (p >>= f) w ≡ run (f (run p w).0) (run p w).1
  unfolding ◌>>=◌ run
  run-bind (ret a) f w = refl
  run-bind (call m k) f w = run-bind (k (m w).0) f (m w).1
