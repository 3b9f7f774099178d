-- ===== src/Concurrent/Safe/Threads.antt =====
-- Every run of a system keeps to the rules, if its requests and messages may write what they do.
use playback_service.Prelude.{
  ℕ, ◌≡◌, Option-cases, inl, inr, some, get_elem?, Every, get_elem?-Every, set-Every, append-Every,
  Every-map, List,
}
use playback_service.Session.Model.{PlaybackSession}
use playback_service.External.{External}
use playback_service.World.{World}
use playback_service.World.Tasks.{advance}
use playback_service.Validator.{Field, Verdict}
use playback_service.Session.Handler.{Ctx}
use playback_service.Session.Consumer.Delivery.{carried}
use playback_service.Concurrent.{Prog, ret, call}
use playback_service.Concurrent.System.{
  Thread, request, message, System, move, move_thread, moved, Step, asks, fetches, moves, turns,
  Reach, here, next,
}
use playback_service.Concurrent.Safe.{Safe, Safe-later}
use playback_service.Concurrent.Safe.Rules.{Rules, Obeys, Any}
use playback_service.Concurrent.Safe.Consumer.{process-Obeys}
use playback_service.Concurrent.Safe.Handler.{Tells, asker, Told, Admits, calls-Obeys}

module _ {x : External} (rules : Rules x) where
  move-Obeys :
      {A : Type 0} (Q : A → World x → Type 0) (p : Prog x A) (w : World x)
      → rules.Inv w
      → Obeys rules Q p w
      → rules.Inv (move p w).1 × rules.Rely w (move p w).1 × Obeys rules Q (move p w).0 (move p w).1
  unfolding move Safe
  move-Obeys Q (ret a) w k safe = (k, rules.stays w, safe)
  move-Obeys Q (call m c) w k safe = safe w (rules.stays w) k

  module _ (struct : List Field → Verdict) where
    abbrev pub IsSafe : World x → Thread x struct → Type 0
    IsSafe w (request ctx p) = Obeys rules (Told rules struct ctx) p w
    IsSafe w (message p) = Obeys rules (Any rules) p w

    IsSafe-later :
        (w v : World x) → rules.Rely w v → (t : Thread x struct) → IsSafe w t → IsSafe v t
    IsSafe-later w v g (request ctx p) safe =
        Safe-later rules.Inv rules.Rely rules.stays rules.joins (Told rules struct ctx) p w v
          (λ a q. q) g safe
    IsSafe-later w v g (message p) safe =
        Safe-later rules.Inv rules.Rely rules.stays rules.joins (Any rules) p w v (λ a q. tt) g safe

    move_thread-IsSafe :
        (t : Thread x struct) (w : World x)
        → rules.Inv w
        → IsSafe w t
        → rules.Inv (move_thread x struct t w).1
          × rules.Rely w (move_thread x struct t w).1
          × IsSafe (move_thread x struct t w).1 (move_thread x struct t w).0
    unfolding move_thread
    move_thread-IsSafe (request ctx p) w k safe = move-Obeys (Told rules struct ctx) p w k safe
    move_thread-IsSafe (message p) w k safe = move-Obeys (Any rules) p w k safe

    -- The invariant holds, and every thread keeps to the rules from here on.
    abbrev pub IsSound : System x struct → Type 0
    IsSound s = rules.Inv s.world × Every (IsSafe s.world) s.threads

    moved-IsSound : (i : ℕ) (s : System x struct) → IsSound s → IsSound (moved x struct i s)
    unfolding moved
    moved-IsSound i s (k, all) = elim (Option-cases (get_elem? s.threads i)) [
      | inl missing ↦ rw (missing, moved) (k, all)
      | inr (t, found) ↦
          let safe = get_elem?-Every (IsSafe s.world) s.threads i t all found in
          let (kept, g, new) = move_thread-IsSafe t s.world k safe in
          let v = (move_thread x struct t s.world).1 in
          let others =
            Every-map (IsSafe s.world) (IsSafe v) (IsSafe-later s.world v g) s.threads all in
          rw (found, moved) (kept, set-Every (IsSafe v) s.threads i _ others new)
    ]

    -- The requests and messages that come in may write what they do.
    abbrev pub Admitted : {s t : System x struct} → Step x struct s t → Type 0
    Admitted (asks e ctx s) = Admits rules struct ctx e
    Admitted (fetches msg s) =
        (t : PlaybackSession) → carried x msg.value ≡ some t → rules.Writes t.user_id
    Admitted (moves i s) = Unit
    Admitted (turns i s) = Unit

    abbrev pub AllAdmitted : {s t : System x struct} → Reach x struct s t → Type 0
    AllAdmitted here = Unit
    AllAdmitted (next r step) = AllAdmitted r × Admitted step

    Step-IsSound :
        {s t : System x struct} (step : Step x struct s t) → Admitted step → IsSound s → IsSound t
    Step-IsSound (asks e ctx s) may (k, all) = (
      k,
      append-Every (IsSafe s.world) s.threads _ all (calls-Obeys rules struct ctx e s.world may),
    )
    Step-IsSound (fetches msg s) may (k, all) =
        (k, append-Every (IsSafe s.world) s.threads _ all (process-Obeys rules msg s.world may))
    Step-IsSound (moves i s) may sound = moved-IsSound i s sound
    Step-IsSound (turns i s) may (k, all) =
        let v = advance x i s.world in
        let (kept, g) = rules.turn i s.world k in
        (kept, Every-map (IsSafe s.world) (IsSafe v) (IsSafe-later s.world v g) s.threads all)

    pub Reach-IsSound :
        {s t : System x struct} (r : Reach x struct s t) → AllAdmitted r → IsSound s → IsSound t
    Reach-IsSound here may sound = sound
    Reach-IsSound (next r step) may sound = Step-IsSound step may.1 (Reach-IsSound r may.0 sound)

    -- What an answered request tells.
    pub IsSound-Tells :
        (s : System x struct) (i : ℕ) (ctx after : Ctx x struct)
        → IsSound s
        → get_elem? s.threads i ≡ some (request ctx (ret after))
        → Tells rules (asker rules struct ctx) ctx after
    unfolding Safe
    IsSound-Tells s i ctx after sound found =
        get_elem?-Every (IsSafe s.world) s.threads i (request ctx (ret after)) sound.1 found
