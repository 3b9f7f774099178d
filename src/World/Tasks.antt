-- ===== src/World/Tasks.antt =====
-- The goroutine that internal/session/repository.go:62 starts, in its two steps: it marshals the
-- session that its pointer shows at that time, and later sends the bytes to Redis.
use playback_service.Prelude.{
  ℕ, ◌*◌, String, ◌<>◌, Option, none, some, List, [], ◌∷◌, ◌++◌, get_elem?, set,
}
use playback_service.Apperror.{Fault, wrapped}
use playback_service.Session.Model.{PlaybackSession, encode_session}
use playback_service.External.{External, Outcome, ok, err}
use playback_service.World.{
  Task, started, marshalled, finished, World, M, pure, warn, text, fault, log_line,
}

-- In seconds.
abbrev pub cache_ttl : ℕ
cache_ttl = 24 * 3600

abbrev pub cache_key_prefix : String
cache_key_prefix = "session:"

module _ (x : External) where
  -- The first half of `SetCache`: the key and the bytes of a session.
  unfoldable pub marshal_for_cache : PlaybackSession → Outcome (String × x.Bytes)
  unfolding encode_session
  marshal_for_cache s = elim (encode_session x.format_time x.parse_time s) [
    | none ↦ err (wrapped "marshal session for cache" x.marshal_error)
    | some v ↦ ok (cache_key_prefix <> s.user_id, x.print v)
  ]

  -- `cacheErr` of the goroutine, logged if it is not nil.
  abbrev pub warm_failed : String → Option Fault → M x (Unit {0})
  warm_failed uid none = pure tt
  warm_failed uid (some e) =
      log_line warn "cache warm failed" (("user_id", text uid) ∷ ("error", fault e) ∷ [])

  -- One step of a goroutine, with the task that is left.
  unfoldable pub run_task : Task x → M x (Task x)
  unfolding marshal_for_cache
  run_task (started uid p) w = elim (marshal_for_cache (w.objects p)) [
    | err e ↦ (finished, (warm_failed uid (some e) w).1)
    | ok (key, bytes) ↦ (marshalled uid key bytes, w)
  ]
  run_task (marshalled uid key bytes) w =
      let (reply, c) = x.cache_set key bytes cache_ttl w.cache in
      (finished, (warm_failed uid reply (record w { cache = c })).1)
  run_task finished w = (finished, w)

  unfoldable pub advance : ℕ → World x → World x
  advance i w = elim (get_elem? w.tasks i) [
    | none ↦ w
    | some t ↦ let (t', w') = run_task t w in record w' { tasks = set w.tasks i t' }
  ]

  unfoldable pub run_turn : List ℕ → World x → World x
  run_turn [] w = w
  run_turn (i ∷ is) w = run_turn is (advance i w)

  abbrev pub turns : List (List ℕ) → World x → World x
  turns [] w = w
  turns (turn ∷ rest) w = run_turn turn (record w { schedule = rest })

  -- A point at which the scheduler may let other goroutines run.
  unfoldable pub yield : M x (Unit {0})
  unfolding run_turn advance run_task
  yield w = (tt, turns w.schedule w)

  -- go func() { ... }()
  unfoldable pub spawn : Task x → M x (Unit {0})
  unfolding yield
  spawn t w = yield (record w { tasks = w.tasks ++ (t ∷ []) })
