-- ===== src/World/Quiet.antt =====
-- Calls where no goroutine runs in the background: the cache stays as it is.
use playback_service.Prelude.{ℕ, ◌≡◌, ◌∙◌, refl, ap, List, [], ◌∷◌, get_elem?, none, arith}
use playback_service.External.{External}
use playback_service.World.{World}
use playback_service.World.Tasks.{advance, run_turn, turns, yield}

module _ {x : External} where
  -- With no tasks before, there are none after, and the cache has not changed.
  pub record Quiet (before after : World x) : Type 0 where
    pub tasks : after.tasks ≡ []
    pub cache : after.cache ≡ before.cache

  pub Quiet-trans : {u v w : World x} → Quiet u v → Quiet v w → Quiet u w
  Quiet-trans p q = record { tasks = q.tasks; cache = q.cache ∙ p.cache }

  advance-Quiet : (i : ℕ) (w : World x) → w.tasks ≡ [] → Quiet w (advance x i w)
  unfolding advance
  advance-Quiet i w none_left =
      let missing : get_elem? w.tasks i ≡ none = ap (λ ts. get_elem? ts i) none_left in
      ground (arith, missing)

  run_turn-Quiet : (is : List ℕ) (w : World x) → w.tasks ≡ [] → Quiet w (run_turn x is w)
  unfolding run_turn
  run_turn-Quiet [] w none_left = record { tasks = none_left; cache = refl }
  run_turn-Quiet (i ∷ is) w none_left =
      let first = advance-Quiet i w none_left in
      Quiet-trans first (run_turn-Quiet is (advance x i w) first.tasks)

  turns-Quiet :
      (turns_left : List (List ℕ)) (w : World x) → w.tasks ≡ [] → Quiet w (turns x turns_left w)
  turns-Quiet [] w none_left = record { tasks = none_left; cache = refl }
  turns-Quiet (turn ∷ rest) w none_left =
      let r = run_turn-Quiet turn (record w { schedule = rest }) none_left in
      record { tasks = r.tasks; cache = r.cache }

  pub yield-Quiet : (w : World x) → w.tasks ≡ [] → Quiet w (yield x w).1
  unfolding yield
  yield-Quiet w none_left = turns-Quiet w.schedule w none_left
