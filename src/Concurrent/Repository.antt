-- ===== src/Concurrent/Repository.antt =====
-- internal/session/repository.go, call by call.
use playback_service.Prelude.{ℕ, String, ◌<>◌, Option, none, some, [], ◌∷◌, if◌then◌else◌}
use playback_service.Apperror.{Fault, app, redis_nil, no_rows, new_not_found, new_internal, is}
use playback_service.Session.Model.{PlaybackSession}
use playback_service.Session.Repository.{unmarshal_session, upsert_reply}
use playback_service.External.{External, Outcome, ok, err}
use playback_service.World.{warn, text, fault, log_line, allocate, deref, started}
use playback_service.World.Tasks.{cache_ttl, cache_key_prefix, marshal_for_cache, spawn}
use playback_service.World.Calls.{redis_get, redis_set, pool_query, pool_exec}
use playback_service.Concurrent.{Prog, ret, does, ◌>>=◌, ◌>>◌}

module _ (x : External) where
  abbrev pub scanned : Outcome PlaybackSession → Prog x (Outcome ℕ)
  scanned (ok s) = do p ← does (allocate s); ret (ok p)
  scanned (err e) =
      if is e no_rows
      then ret (err (app (new_not_found "playback session not found")))
      else ret (err (app (new_internal "db query failed" e)))

  unfoldable pub get_from_db : String → Prog x (Outcome ℕ)
  get_from_db uid = do row ← does (pool_query x uid); scanned row

  abbrev pub sent_bytes : Outcome (String × x.Bytes) → Prog x (Option Fault)
  sent_bytes (ok (key, bytes)) = does (redis_set x key bytes cache_ttl)
  sent_bytes (err e) = ret (some e)

  unfoldable pub set_cache : ℕ → Prog x (Option Fault)
  set_cache p = do s ← does (deref p); sent_bytes (marshal_for_cache x s)

  unfoldable pub upsert : ℕ → Prog x (Option Fault)
  upsert p = do s ← does (deref p); reply ← does (pool_exec x s); ret (upsert_reply x reply)

  -- The goroutine that warms the cache is started, and is another one that runs at the same time.
  abbrev pub warming : String → Outcome ℕ → Prog x (Outcome ℕ)
  warming uid (err e) = ret (err e)
  warming uid (ok p) = do does (spawn x (started uid p)); ret (ok p)

  unfoldable pub from_db : String → Prog x (Outcome ℕ)
  from_db uid = do found ← get_from_db uid; warming uid found

  abbrev pub entry_found : String → Option PlaybackSession → Prog x (Outcome ℕ)
  entry_found uid (some s) = do p ← does (allocate s); ret (ok p)
  entry_found uid none =
      does (log_line warn "corrupted cache entry, falling back to db" (("user_id", text uid) ∷ []))
      >> from_db uid

  abbrev pub cache_answered : String → Outcome x.Bytes → Prog x (Outcome ℕ)
  cache_answered uid (ok bytes) = entry_found uid (unmarshal_session x bytes)
  cache_answered uid (err e) =
      if is e redis_nil
      then from_db uid
      else (does (
            log_line warn "redis unavailable, falling back to db"
              (("user_id", text uid) ∷ ("error", fault e) ∷ []))
          >> from_db uid)

  unfoldable pub get : String → Prog x (Outcome ℕ)
  get uid = do reply ← does (redis_get x (cache_key_prefix <> uid)); cache_answered uid reply
