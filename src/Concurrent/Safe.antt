-- ===== src/Concurrent/Safe.antt =====
-- What a run keeps to, and may rely on, whatever others do between its calls.
pub mod Rules
pub mod Heap
pub mod Repository
pub mod Service
pub mod Consumer
pub mod Handler
pub mod Threads
pub mod Keyed
pub mod Responses
pub mod Leaves
pub mod Others
pub mod Reads
use playback_service.Prelude.{ℕ, ◌≤◌, ◌<◌, String, ◌≡◌, ◌∙◌, refl, arith}
use playback_service.External.{External, Outcome, ok, err}
use playback_service.External.Laws.{IsRedis}
use playback_service.World.{World, M}
use playback_service.World.Frame.{Undisturbed}
use playback_service.Session.Isolation.Keyed.{IsKeyed}
use playback_service.Concurrent.{Prog, ret, call, ◌>>=◌}

module _ {x : External} where
  -- The sessions of the heap keep their owners, and no pointer is freed.
  pub record Grows (w v : World x) : Type 0 where
    pub allocated : w.next ≤ v.next
    pub owner : (p : ℕ) → p < w.next → (v.objects p).user_id ≡ (w.objects p).user_id

  pub Grows-refl : (w : World x) → Grows w w
  Grows-refl w = record { allocated = omega arith; owner = λ p lt. refl }

  pub Grows-trans : {u v w : World x} → Grows u v → Grows v w → Grows u w
  Grows-trans {u} {v} {w} f g = record {
    allocated = let a = f.allocated in let b = g.allocated in omega arith;
    owner = λ p lt.
        let a = f.allocated in
        let within : p < v.next = omega arith in g.owner p within ∙ f.owner p lt;
  }

  pub Grows-of_Undisturbed : {w v : World x} → Undisturbed w v → Grows w v
  Grows-of_Undisturbed {w} {v} same =
      let objects = same.objects in
      let next = same.next in record { allocated = ground arith; owner = λ p lt. ground arith }

-- `I` holds of the world between any two calls, and `R` between the worlds before and after a call.
module _ {x : External} (I : World x → Type 0) (R : World x → World x → Type 0) where
  -- The call keeps to the rules in this world.
  abbrev pub IsGood : {A : Type 0} → M x A → World x → Type 0
  IsGood m v = I v → I (m v).1 × R v (m v).1

  -- Every call of a run is good in every world that others may lead to, and `Q` holds of its result.
  unfoldable pub Safe : {A : Type 0} → (A → World x → Type 0) → Prog x A → World x → Type 0
  Safe Q (ret a) w = Q a w
  Safe Q (call m k) w =
      (v : World x) → R w v → I v → I (m v).1 × R v (m v).1 × Safe Q (k (m v).0) (m v).1

  pub Safe-ret :
      {A : Type 0} (Q : A → World x → Type 0) (a : A) (w : World x) → Q a w → Safe Q (ret a) w
  unfolding Safe
  Safe-ret Q a w q = q

  pub Safe-call :
      {A B : Type 0} (Q : A → World x → Type 0) (m : M x B) (k : B → Prog x A) (w : World x)
      → ((v : World x) → R w v → IsGood m v)
      → ((v : World x) → R w v → I v → Safe Q (k (m v).0) (m v).1)
      → Safe Q (call m k) w
  unfolding Safe
  Safe-call Q m k w good next = λ v r i. let (kept, done) = good v r i in (kept, done, next v r i)

  module _ (stays : (w : World x) → R w w) (joins : (u v w : World x) → R u v → R v w → R u w) where
    pub Safe-bind :
        {A B : Type 0} (Q : A → World x → Type 0) (T : B → World x → Type 0) (p : Prog x A)
        (f : A → Prog x B) (w : World x)
        → Safe Q p w
        → ((a : A) (v : World x) → R w v → Q a v → Safe T (f a) v)
        → Safe T (p >>= f) w
    unfolding Safe ◌>>=◌
    Safe-bind Q T (ret a) f w safe next = next a w (stays w) safe
    Safe-bind Q T (call m k) f w safe next = λ v r i.
        let (kept, done, rest) = safe v r i in
        (
          kept,
          done,
          Safe-bind Q T (k (m v).0) f (m v).1 rest
              λ a u h q. next a u (joins w v u r (joins v (m v).1 u done h)) q,
        )

    -- Others may run before the next call.
    pub Safe-later :
        {A : Type 0} (Q : A → World x → Type 0) (p : Prog x A) (w v : World x)
        → ((a : A) → Q a w → Q a v)
        → R w v
        → Safe Q p w
        → Safe Q p v
    unfolding Safe
    Safe-later Q (ret a) w v later r safe = later a safe
    Safe-later Q (call m k) w v later r safe = λ u h i. safe u (joins w v u r h) i
