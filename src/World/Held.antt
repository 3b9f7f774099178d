-- ===== src/World/Held.antt =====
-- A predicate on what the cache holds under a key, for the cache and for the goroutines that are about
-- to write to it.
use mathlib.Core.Path.{subst, subst₂}
use playback_service.Prelude.{
  ℕ, String, ◌≡◌, refl, sym, ◌∙◌, Option, none, some, Option-cases, inl, inr, List, [], ◌∷◌, ◌++◌,
  get_elem?, set, Every, get_elem?-Every, set-Every, append-Every, Every-map,
}
use playback_service.Apperror.{Fault}
use playback_service.Session.Model.{PlaybackSession}
use playback_service.External.{External, Outcome, ok, err}
use playback_service.External.Laws.{IsRedis}
use playback_service.World.{Task, started, marshalled, finished, World}
use playback_service.World.Tasks.{
  cache_ttl, marshal_for_cache, warm_failed, run_task, advance, run_turn, turns, yield, spawn,
}
use playback_service.World.Frame.{run_task-Undisturbed}
use playback_service.World.Calls.{redis_get, redis_set}

-- `P` is for a key and its bytes, `J` for the pointer of a goroutine that has not marshalled yet, in
-- a heap with its first free pointer.
module _ {x : External} (redis : IsRedis x) (P : String → x.Bytes → Type 0)
    (J : (ℕ → PlaybackSession) → ℕ → ℕ → Type 0) where
  abbrev pub CacheHolds : x.Cache → Type 0
  CacheHolds c = (key : String) (b : x.Bytes) → redis.entry key c ≡ some b → P key b

  abbrev pub TaskHolds : (ℕ → PlaybackSession) → ℕ → Task x → Type 0
  TaskHolds o n (started uid p) = J o n p
  TaskHolds o n (marshalled uid key b) = P key b
  TaskHolds o n finished = Unit

  abbrev pub TasksHold : (ℕ → PlaybackSession) → ℕ → List (Task x) → Type 0
  TasksHold o n ts = Every (TaskHolds o n) ts

  -- Every entry of the cache is as `P` says, and stays so when the goroutines have written theirs.
  abbrev pub Held : World x → Type 0
  Held w = CacheHolds w.cache × TasksHold w.objects w.next w.tasks

  -- A change of the heap that leaves the objects of the goroutines as they should be.
  pub TasksHold-map :
      (o o' : ℕ → PlaybackSession) (n n' : ℕ)
      → ((p : ℕ) → J o n p → J o' n' p)
      → (ts : List (Task x)) → TasksHold o n ts
      → TasksHold o' n' ts
  TasksHold-map o o' n n' keep ts k = Every-map (TaskHolds o n) (TaskHolds o' n') kept ts k
    where
      kept : (t : Task x) → TaskHolds o n t → TaskHolds o' n' t
      kept (started uid p) own = keep p own
      kept (marshalled uid key b) own = own
      kept finished own = tt

  set-CacheHolds :
      (key : String) (b : x.Bytes) (ttl : ℕ) (c : x.Cache)
      → P key b
      → CacheHolds c
      → CacheHolds (x.cache_set key b ttl c).1
  set-CacheHolds key b ttl c own k j b' held = elim (redis.set_effect key j b ttl c) [
    | inl kept ↦ k j b' (sym kept ∙ held)
    | inr (inl lost) ↦ cc
    | inr (inr (same, stored)) ↦
        let e : b ≡ b' = cc in subst (λ c'. P j c') e (subst (λ i. P i b) same own)
  ]

  get-CacheHolds : (key : String) (c : x.Cache) → CacheHolds c → CacheHolds (x.cache_get key c).1
  get-CacheHolds key c k j b held = elim (redis.get_effect key j c) [
    | inl kept ↦ k j b (sym kept ∙ held)
    | inr lost ↦ cc
  ]

  warm_failed-Held :
      (uid : String) (r : Option Fault) (w : World x) → Held w → Held (warm_failed x uid r w).1
  warm_failed-Held uid none w k = k
  warm_failed-Held uid (some e) w k = k

  module _
      (made : (o : ℕ → PlaybackSession) (n p : ℕ) (key : String) (b : x.Bytes)
        → J o n p
        → marshal_for_cache x (o p) ≡ ok (key, b)
        → P key b) where
    -- A step of a goroutine, and the cache that it leaves.
    run_task-Held :
        (t : Task x) (w : World x)
        → TaskHolds w.objects w.next t
        → Held w
        → TaskHolds w.objects w.next (run_task x t w).0 × Held (run_task x t w).1
    unfolding run_task
    run_task-Held (started uid p) w own k = run_started (marshal_for_cache x (w.objects p)) refl
      where
        run_started :
            (m : Outcome (String × x.Bytes))
            → marshal_for_cache x (w.objects p) ≡ m
            → TaskHolds w.objects w.next (run_task x (started uid p) w).0
              × Held (run_task x (started uid p) w).1
        run_started (ok (key, b)) e = rw (e, run_task) (made w.objects w.next p key b own e, k)
        run_started (err f) e = rw (e, run_task) (tt, warm_failed-Held uid (some f) w k)
    run_task-Held (marshalled uid key b) w own k =
        let (reply, c) = x.cache_set key b cache_ttl w.cache in
        (
          tt,
          warm_failed-Held uid reply (record w { cache = c })
              (set-CacheHolds key b cache_ttl w.cache own k.0, k.1),
        )
    run_task-Held finished w own k = (tt, k)

    pub advance-Held : (i : ℕ) (w : World x) → Held w → Held (advance x i w)
    unfolding advance
    advance-Held i w k = elim (Option-cases (get_elem? w.tasks i)) [
      | inl e ↦ rw (e, advance) k
      | inr (t, e) ↦
          let task = get_elem?-Every (TaskHolds w.objects w.next) w.tasks i t k.1 e in
          let (own, kept) = run_task-Held t w task k in
          let same = run_task-Undisturbed t w in
          rw (e, advance)
            (
              kept.0,
              subst₂ (λ o n. TasksHold o n (set w.tasks i (run_task x t w).0)) (sym same.objects)
                  (sym same.next)
                  (set-Every (TaskHolds w.objects w.next) w.tasks i (run_task x t w).0 k.1 own),
            )
    ]

    run_turn-Held : (is : List ℕ) (w : World x) → Held w → Held (run_turn x is w)
    unfolding run_turn
    run_turn-Held [] w k = k
    run_turn-Held (i ∷ is) w k = run_turn-Held is (advance x i w) (advance-Held i w k)

    turns-Held : (turns_left : List (List ℕ)) (w : World x) → Held w → Held (turns x turns_left w)
    turns-Held [] w k = k
    turns-Held (turn ∷ rest) w k = run_turn-Held turn (record w { schedule = rest }) k

    pub yield-Held : (w : World x) → Held w → Held (yield x w).1
    unfolding yield
    yield-Held w k = turns-Held w.schedule w k

    pub spawn-Held :
        (t : Task x) (w : World x) → TaskHolds w.objects w.next t → Held w → Held (spawn x t w).1
    unfolding spawn
    spawn-Held t w own k =
        yield-Held (record w { tasks = w.tasks ++ (t ∷ []) })
          (k.0, append-Every (TaskHolds w.objects w.next) w.tasks t k.1 own)

    pub redis_get-Held : (key : String) (w : World x) → Held w → Held (redis_get x key w).1
    unfolding redis_get
    redis_get-Held key w k =
        let y = yield-Held w k in (get-CacheHolds key (yield x w).1.cache y.0, y.1)

    pub redis_set-Held :
        (key : String) (b : x.Bytes) (w : World x)
        → P key b
        → Held w
        → Held (redis_set x key b cache_ttl w).1
    unfolding redis_set
    redis_set-Held key b w own k =
        let y = yield-Held w k in (set-CacheHolds key b cache_ttl (yield x w).1.cache own y.0, y.1)
