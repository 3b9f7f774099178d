-- ===== src/Concurrent/Safe/Leaves.antt =====
-- Steps that leave the sessions of a user in the heap alone.
use playback_service.Prelude.{
  ℕ, ◌<◌, ◌≡◌, ◌≢◌, ◌∙◌, ap, refl, eqb, Bool-cases, inl, inr, if◌then◌else◌, arith,
}
use playback_service.Session.Model.{PlaybackSession}
use playback_service.External.{External}
use playback_service.World.{World, allocate}
use playback_service.World.Tasks.{yield}
use playback_service.World.Frame.{Undisturbed, yield-Undisturbed}
use playback_service.World.Calls.{assign}
use playback_service.Concurrent.Safe.{Grows, Grows-refl, Grows-trans, Grows-of_Undisturbed}
use playback_service.Concurrent.Safe.Heap.{allocate-Grows, assign-Grows, called-Grows}

module _ {x : External} where
  pub record Leaves (s : PlaybackSession) (w v : World x) : Type 0 where
    pub grows : Grows w v
    pub same : (p : ℕ) → p < w.next → (w.objects p).user_id ≡ s.user_id → v.objects p ≡ w.objects p

module _ {x : External} (s : PlaybackSession) where
  pub Leaves-refl : (w : World x) → Leaves s w w
  Leaves-refl w = record { grows = Grows-refl w; same = λ p lt own. refl }

  pub Leaves-trans : (u v w : World x) → Leaves s u v → Leaves s v w → Leaves s u w
  Leaves-trans u v w f g = record {
    grows = Grows-trans f.grows g.grows;
    same = λ p lt own.
        let fg = f.grows in
        let a = fg.allocated in
        let within : p < v.next = omega arith in
        g.same p within (fg.owner p lt ∙ own) ∙ f.same p lt own;
  }

  pub Leaves-of_objects : (w v : World x) → Grows w v → v.objects ≡ w.objects → Leaves s w v
  Leaves-of_objects w v g objects = record { grows = g; same = λ p lt own. ap (λ o. o p) objects }

  pub Leaves-of_Undisturbed : (w v : World x) → Undisturbed w v → Leaves s w v
  Leaves-of_Undisturbed w v same = Leaves-of_objects w v (Grows-of_Undisturbed same) same.objects

  -- A call that may let others run, and then leaves the heap alone.
  pub called-Leaves :
      (w v : World x)
      → v.objects ≡ (yield x w).1.objects
      → v.next ≡ (yield x w).1.next
      → Leaves s w v
  called-Leaves w v objects next =
      Leaves-of_objects w v (called-Grows w v objects next)
        (objects ∙ (yield-Undisturbed w).objects)

  pub allocate-Leaves : (t : PlaybackSession) (w : World x) → Leaves s w (allocate t w).1
  allocate-Leaves t w = record { grows = allocate-Grows t w; same = λ p lt own. ground arith }

  -- An assignment to a session of another user.
  pub assign-Leaves :
      (p : ℕ) (f : PlaybackSession → PlaybackSession) (w : World x)
      → ((t : PlaybackSession) → (f t).user_id ≡ t.user_id)
      → (w.objects p).user_id ≢ s.user_id
      → Leaves s w (assign x p f w).1
  unfolding assign
  assign-Leaves p f w same other = record {
    grows = assign-Grows p f w same;
    same = λ q lt own.
        let objects = λ (r : ℕ). if eqb p r then f (w.objects p) else w.objects r in
        ap (λ o. o q) (yield-Undisturbed (record w { objects = objects })).objects
        ∙ elim (Bool-cases (eqb p q)) [
          | inl here ↦
              let there : p ≡ q = ground (arith, here) in
              absurd (other (ap (λ r. (w.objects r).user_id) there ∙ own))
          | inr there ↦ rw there refl
        ];
  }
