-- ===== src/World/Frame.antt =====
-- What a turn of other goroutines leaves alone: everything but the cache, the tasks, the schedule
-- and the log.
use playback_service.Prelude.{
  ℕ, ◌≡◌, ◌∙◌, List, [], ◌∷◌, ◌++◌, inl, inr, Option-cases, get_elem?, arith,
}
use playback_service.External.{External}
use playback_service.World.{Task, started, marshalled, finished, World}
use playback_service.World.Tasks.{run_task, advance, run_turn, turns, yield, spawn}

module _ {x : External} where
  -- `after` has the stores, the clock and the heap of `before`.
  pub record Undisturbed (before after : World x) : Type 0 where
    pub db : after.db ≡ before.db
    pub broker : after.broker ≡ before.broker
    pub clock : after.clock ≡ before.clock
    pub objects : after.objects ≡ before.objects
    pub next : after.next ≡ before.next

  Undisturbed-trans : {u v w : World x} → Undisturbed u v → Undisturbed v w → Undisturbed u w
  Undisturbed-trans p q = record {
    db = q.db ∙ p.db;
    broker = q.broker ∙ p.broker;
    clock = q.clock ∙ p.clock;
    objects = q.objects ∙ p.objects;
    next = q.next ∙ p.next;
  }

  pub run_task-Undisturbed : (t : Task x) (w : World x) → Undisturbed w (run_task x t w).1
  unfolding run_task
  run_task-Undisturbed (started uid p) w = ground arith
  run_task-Undisturbed (marshalled uid key bytes) w = ground arith
  run_task-Undisturbed finished w = ground arith

  pub advance-Undisturbed : (i : ℕ) (w : World x) → Undisturbed w (advance x i w)
  unfolding advance
  advance-Undisturbed i w = elim (Option-cases (get_elem? w.tasks i)) [
    | inl e ↦ ground arith
    | inr (t, e) ↦ ground (arith, run_task-Undisturbed t w)
  ]

  run_turn-Undisturbed : (is : List ℕ) (w : World x) → Undisturbed w (run_turn x is w)
  unfolding run_turn
  run_turn-Undisturbed [] w = ground arith
  run_turn-Undisturbed (i ∷ is) w =
      Undisturbed-trans (advance-Undisturbed i w) (run_turn-Undisturbed is (advance x i w))

  turns-Undisturbed :
      (turns_left : List (List ℕ)) (w : World x) → Undisturbed w (turns x turns_left w)
  turns-Undisturbed [] w = ground arith
  turns-Undisturbed (turn ∷ rest) w =
      let r = run_turn-Undisturbed turn (record w { schedule = rest }) in
      record { db = r.db; broker = r.broker; clock = r.clock; objects = r.objects; next = r.next }

  pub yield-Undisturbed : (w : World x) → Undisturbed w (yield x w).1
  unfolding yield
  yield-Undisturbed w = turns-Undisturbed w.schedule w

  pub spawn-Undisturbed : (t : Task x) (w : World x) → Undisturbed w (spawn x t w).1
  unfolding spawn
  spawn-Undisturbed t w =
      ground (arith, yield-Undisturbed (record w { tasks = w.tasks ++ (t ∷ []) }))
