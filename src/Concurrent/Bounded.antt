-- ===== src/Concurrent/Bounded.antt =====
-- A run ends after a number of its own calls that does not depend on what they answer.
pub mod Repository
pub mod Service
pub mod Handler
pub mod Answered
use native.Mathlib.Numerals.{unary_clauses}
use playback_service.Prelude.{ℕ, ◌≡◌, zero, suc, ◌+◌, ◌-◌, ◌≤◌, arith}
use playback_service.External.{External}
use playback_service.World.{World, M}
use playback_service.Concurrent.{Prog, ret, call, does, ◌>>=◌}
use playback_service.Concurrent.System.{move}

module _ {x : External} where
  -- No more than so many calls are left, whatever they answer.
  unfoldable pub Within : {A : Type 0} → ℕ → Prog x A → Type 0
  Within n (ret a) = Unit
  Within zero (call m k) = ⊥
  Within (suc n) (call {B} m k) = (b : B) → Within n (k b)

  pub Within-more : {A : Type 0} (n m : ℕ) (p : Prog x A) → n ≤ m → Within n p → Within m p
  unfolding Within
  Within-more n m (ret a) le few = tt
  Within-more zero m (call c k) le few = absurd few
  Within-more (suc n) zero (call c k) le few = absurd (omega arith)
  Within-more (suc n) (suc m) (call c k) le few = λ b. Within-more n m (k b) (omega arith) (few b)

  pub Within-bind :
      {A B : Type 0} (n m : ℕ) (p : Prog x A) (f : A → Prog x B)
      → Within n p
      → ((a : A) → Within m (f a))
      → Within (n + m) (p >>= f)
  unfolding Within ◌>>=◌
  Within-bind n m (ret a) f few rest = Within-more m (n + m) (f a) (omega arith) (rest a)
  Within-bind zero m (call c k) f few rest = absurd few
  Within-bind (suc n) m (call c k) f few rest =
      let e : suc n + m ≡ suc (n + m) = omega arith in
      rw e (λ b. Within-bind n m (k b) f (few b) rest)

  pub move-Within :
      {A : Type 0} (n : ℕ) (p : Prog x A) (w : World x) → Within n p → Within (n - 1) (move p w).0
  unfolding Within move
  move-Within n (ret a) w few = tt
  move-Within zero (call m k) w few = absurd few
  move-Within (suc n) (call m k) w few = simp unary_clauses (few (m w).0)
