-- ===== src/Session/Repository.antt =====
-- internal/session/repository.go: the session in Redis and in PostgreSQL.
pub mod Effects
pub mod Answers
pub mod Reads
pub mod Rows
pub mod Synced
pub mod Decoded
use mathlib.Core.Option
use playback_service.Prelude.{ℕ, String, ◌<>◌, Option, none, some, ◌==◌, [], ◌∷◌, if◌then◌else◌}
use playback_service.Apperror.{
  Fault, wrapped, app, redis_nil, no_rows, new_not_found, new_internal, is,
}
use playback_service.Session.Model.{PlaybackSession, decode_session}
use playback_service.External.{External, Outcome, ok, err, unmarshal}
use playback_service.World.{
  M, pure, ◌>>=◌, ◌>>◌, warn, text, fault, log_line, allocate, deref, started,
}
use playback_service.World.Tasks.{cache_ttl, cache_key_prefix, marshal_for_cache, spawn}
use playback_service.World.Calls.{redis_get, redis_set, pool_query, pool_exec}

-- The effect of the statement of `Upsert` on the table: a new row, or an existing one with the
-- columns of the SET clause replaced.
abbrev pub conflict_update : PlaybackSession → Option PlaybackSession → PlaybackSession
conflict_update s none = s
conflict_update s (some row) = record row {
  track_id = s.track_id;
  position = s.position;
  status = s.status;
  device_id = s.device_id;
  updated_at = s.updated_at;
}

abbrev pub upserted :
    PlaybackSession → (String → Option PlaybackSession) → String → Option PlaybackSession
upserted s rows uid =
    if s.user_id == uid then some (conflict_update s (rows s.user_id)) else rows uid

module _ (x : External) where
  -- json.Unmarshal(data, &s)
  unfoldable pub unmarshal_session : x.Bytes → Option PlaybackSession
  unmarshal_session bytes = unmarshal x (decode_session x.format_time x.parse_time) bytes

  abbrev pub from_row : Outcome PlaybackSession → M x (Outcome ℕ)
  from_row (ok s) = do p ← allocate s; pure (ok p)
  from_row (err e) =
      if is e no_rows
      then pure (err (app (new_not_found "playback session not found")))
      else pure (err (app (new_internal "db query failed" e)))

  unfoldable pub get_from_db : String → M x (Outcome ℕ)
  get_from_db uid = do row ← pool_query x uid; from_row row

  abbrev pub set_bytes : Outcome (String × x.Bytes) → M x (Option Fault)
  set_bytes (ok (key, bytes)) = redis_set x key bytes cache_ttl
  set_bytes (err e) = pure (some e)

  unfoldable pub set_cache : ℕ → M x (Option Fault)
  set_cache p = do s ← deref p; set_bytes (marshal_for_cache x s)

  abbrev pub upsert_reply : Option Fault → Option Fault
  upsert_reply none = none
  upsert_reply (some e) = some (wrapped "upsert playback session" e)

  unfoldable pub upsert : ℕ → M x (Option Fault)
  upsert p = do s ← deref p; reply ← pool_exec x s; pure (upsert_reply reply)

  -- The end of `Get`: the goroutine that warms the cache holds the pointer that is returned.
  abbrev pub warm : String → Outcome ℕ → M x (Outcome ℕ)
  warm uid (err e) = pure (err e)
  warm uid (ok p) = do spawn x (started uid p); pure (ok p)

  unfoldable pub fall_back : String → M x (Outcome ℕ)
  fall_back uid = do found ← get_from_db uid; warm uid found

  abbrev pub from_entry : String → Option PlaybackSession → M x (Outcome ℕ)
  from_entry uid (some s) = do p ← allocate s; pure (ok p)
  from_entry uid none =
      log_line warn "corrupted cache entry, falling back to db" (("user_id", text uid) ∷ [])
      >> fall_back uid

  -- The `switch` on the answer of Redis.
  abbrev pub from_cache : String → Outcome x.Bytes → M x (Outcome ℕ)
  from_cache uid (ok bytes) = from_entry uid (unmarshal_session bytes)
  from_cache uid (err e) =
      if is e redis_nil
      then fall_back uid
      else (log_line warn "redis unavailable, falling back to db"
            (("user_id", text uid) ∷ ("error", fault e) ∷ [])
          >> fall_back uid)

  unfoldable pub get : String → M x (Outcome ℕ)
  unfolding get_from_db fall_back
  get uid = do reply ← redis_get x (cache_key_prefix <> uid); from_cache uid reply
