-- ===== src/Concurrent/Safe/Heap.antt =====
-- The heap of sessions grows with every call, and no session of it gets another owner.
use playback_service.Prelude.{ℕ, ◌≡◌, ◌∙◌, ap, eqb, if◌then◌else◌, arith}
use playback_service.Session.Model.{PlaybackSession}
use playback_service.External.{External}
use playback_service.World.{World, allocate}
use playback_service.World.Tasks.{yield, advance}
use playback_service.World.Frame.{yield-Undisturbed, advance-Undisturbed}
use playback_service.World.Calls.{assign}
use playback_service.Concurrent.Safe.{Grows, Grows-trans, Grows-of_Undisturbed}

module _ {x : External} where
  yield-Grows : (w : World x) → Grows w (yield x w).1
  yield-Grows w = Grows-of_Undisturbed (yield-Undisturbed w)

  pub allocate-Grows : (s : PlaybackSession) (w : World x) → Grows w (allocate s w).1
  allocate-Grows s w = record { allocated = omega arith; owner = λ p lt. ground arith }

  assigned-Grows :
      (p : ℕ) (f : PlaybackSession → PlaybackSession)
      → ((s : PlaybackSession) → (f s).user_id ≡ s.user_id)
      → (w : World x)
      → Grows w (record w { objects = λ q. if eqb p q then f (w.objects p) else w.objects q })
  assigned-Grows p f same w = record {
    allocated = omega arith;
    owner = λ q lt. ground (arith, same (w.objects p));
  }

  pub advance-Grows : (i : ℕ) (w : World x) → Grows w (advance x i w)
  advance-Grows i w = Grows-of_Undisturbed (advance-Undisturbed i w)

  pub assign-Grows :
      (p : ℕ) (f : PlaybackSession → PlaybackSession) (w : World x)
      → ((s : PlaybackSession) → (f s).user_id ≡ s.user_id)
      → Grows w (assign x p f w).1
  unfolding assign
  assign-Grows p f w same =
      Grows-trans (assigned-Grows p f same w)
        (yield-Grows (record w { objects = λ q. if eqb p q then f (w.objects p) else w.objects q }))

  -- A call that may let others run, and then leaves the heap alone.
  pub called-Grows :
      (w v : World x) → v.objects ≡ (yield x w).1.objects → v.next ≡ (yield x w).1.next → Grows w v
  called-Grows w v objects next =
      let g = yield-Grows w in
      let a = g.allocated in
      record {
        allocated = omega (arith, next);
        owner = λ p lt. ap (λ (o : ℕ → PlaybackSession). (o p).user_id) objects ∙ g.owner p lt;
      }
