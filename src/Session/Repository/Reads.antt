-- ===== src/Session/Repository/Reads.antt =====
-- What `Get` changes: a row at most by reading it, the heap by one session, nothing of the broker
-- and the clock.
use playback_service.Prelude.{
  ℕ, String, ◌<>◌, ◌≡◌, ◌⊎◌, Bool-cases, Option, none, some, List, inl, inr, arith,
}
use playback_service.Apperror.{redis_nil, is}
use playback_service.Session.Model.{PlaybackSession}
use playback_service.External.{External, Outcome, ok, err}
use playback_service.World.{World, LogLine, started}
use playback_service.World.Tasks.{yield, cache_key_prefix}
use playback_service.World.Calls.{redis_get, pool_query}
use playback_service.World.Frame.{Undisturbed, yield-Undisturbed, spawn-Undisturbed}
use playback_service.Session.Repository.{
  unmarshal_session, from_row, get_from_db, warm, fall_back, from_entry, from_cache, get,
}
use playback_service.Session.Repository.Effects.{redis_get-Undisturbed}

module _ {x : External} where
  pub record Reads (uid : String) (before after : World x) : Type 0 where
    pub db : (after.db ≡ before.db) ⊎ (after.db ≡ (x.query_row uid before.db).1)
    pub broker : after.broker ≡ before.broker
    pub clock : after.clock ≡ before.clock

module _ (x : External) where
  from_row-Undisturbed_stores :
      (r : Outcome PlaybackSession) (w : World x)
      → ((from_row x r w).1.db ≡ w.db)
        × ((from_row x r w).1.broker ≡ w.broker)
        × ((from_row x r w).1.clock ≡ w.clock)
  from_row-Undisturbed_stores (ok s) w = ground arith
  from_row-Undisturbed_stores (err e) w = ground arith

  warm-Undisturbed : (uid : String) (r : Outcome ℕ) (w : World x) → Undisturbed w (warm x uid r w).1
  warm-Undisturbed uid (ok p) w = ground (arith, spawn-Undisturbed (started uid p) w)
  warm-Undisturbed uid (err e) w = ground arith

  fall_back-Reads : (uid : String) (w : World x) → Reads uid w (fall_back x uid w).1
  unfolding fall_back get_from_db pool_query
  fall_back-Reads uid w =
      let u = (yield x w).1 in
      let r = x.query_row uid u.db in
      let w' = record u { db = r.1 } in
      let f = from_row x r.0 w' in
      ground (
        arith,
        warm-Undisturbed uid f.0 f.1,
        from_row-Undisturbed_stores r.0 w',
        yield-Undisturbed w,
      )

  -- A line in the log is no change of a store.
  logged-Reads :
      {uid : String} {w after : World x} (lines : List LogLine)
      → Reads uid (record w { log = lines }) after
      → Reads uid w after
  logged-Reads lines r = record { db = r.db; broker = r.broker; clock = r.clock }

  from_entry-Reads :
      (uid : String) (found : Option PlaybackSession) (w : World x)
      → Reads uid w (from_entry x uid found w).1
  from_entry-Reads uid (some s) w = ground arith
  from_entry-Reads uid none w = logged-Reads _ (fall_back-Reads uid _)

  from_cache-Reads :
      (uid : String) (reply : Outcome x.Bytes) (w : World x)
      → Reads uid w (from_cache x uid reply w).1
  from_cache-Reads uid (ok b) w = from_entry-Reads uid (unmarshal_session x b) w
  from_cache-Reads uid (err e) w = elim (Bool-cases (is e redis_nil)) [
    | inl miss ↦ rw miss (fall_back-Reads uid w)
    | inr down ↦ rw down (logged-Reads _ (fall_back-Reads uid _))
  ]

  pub get-Reads : (uid : String) (w : World x) → Reads uid w (get x uid w).1
  unfolding get
  get-Reads uid w =
      let r = redis_get x (cache_key_prefix <> uid) w in
      ground
        (arith, redis_get-Undisturbed x (cache_key_prefix <> uid) w, from_cache-Reads uid r.0 r.1)
