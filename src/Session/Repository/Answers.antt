-- ===== src/Session/Repository/Answers.antt =====
-- What `Get` answers, as a function of what Redis and PostgreSQL answer.
use playback_service.Prelude.{
  ℕ, String, ◌<>◌, ◌≡◌, refl, ◌∙◌, ap, Bool-cases, Option, none, some, inl, inr, arith,
  if◌then◌else◌,
}
use playback_service.Apperror.{app, no_rows, redis_nil, new_not_found, new_internal, is}
use playback_service.Session.Model.{PlaybackSession}
use playback_service.External.{External, Outcome, ok, err}
use playback_service.World.{World, started}
use playback_service.World.Tasks.{yield, cache_key_prefix}
use playback_service.World.Calls.{redis_get, pool_query}
use playback_service.World.Frame.{yield-Undisturbed, spawn-Undisturbed}
use playback_service.Session.Repository.{
  unmarshal_session, from_row, get_from_db, warm, fall_back, from_entry, from_cache, get,
}

module _ {x : External} where
  -- The session that a returned pointer points at.
  abbrev pub seen : Outcome ℕ × World x → Outcome PlaybackSession
  seen (err e, w) = err e
  seen (ok p, w) = ok (w.objects p)

module _ (x : External) where
  -- A usable answer of Redis: bytes that decode to a session.
  abbrev pub usable : Outcome x.Bytes → Option PlaybackSession
  usable (ok b) = unmarshal_session x b
  usable (err e) = none

  pub usable-some :
      (r : Outcome x.Bytes) (s : PlaybackSession)
      → usable r ≡ some s
      → (b : x.Bytes) × (r ≡ ok b) × (unmarshal_session x b ≡ some s)
  usable-some (ok b) s e = (b, refl, e)
  usable-some (err f) s e = cc

  abbrev pub row_answer : Outcome PlaybackSession → Outcome PlaybackSession
  row_answer (ok s) = ok s
  row_answer (err e) =
      if is e no_rows
      then err (app (new_not_found "playback session not found"))
      else err (app (new_internal "db query failed" e))

  -- The specification of `Get`: the cached session if there is a usable one, else the row.
  abbrev pub get_answer : Option PlaybackSession → Outcome PlaybackSession → Outcome PlaybackSession
  get_answer (some s) row = ok s
  get_answer none row = row_answer row

  from_row-seen : (r : Outcome PlaybackSession) (w : World x) → seen (from_row x r w) ≡ row_answer r
  from_row-seen (ok s) w = ground arith
  from_row-seen (err e) w = ground arith

  warm-seen : (uid : String) (r : Outcome ℕ) (w : World x) → seen (warm x uid r w) ≡ seen (r, w)
  warm-seen uid (ok p) w = ground (arith, spawn-Undisturbed (started uid p) w)
  warm-seen uid (err e) w = refl

  fall_back-seen :
      (uid : String) (w : World x) → seen (fall_back x uid w) ≡ row_answer (x.query_row uid w.db).0
  unfolding fall_back get_from_db pool_query
  fall_back-seen uid w =
      let u = (yield x w).1 in
      let r = x.query_row uid u.db in
      let w' = record u { db = r.1 } in
      warm-seen uid (from_row x r.0 w').0 (from_row x r.0 w').1
      ∙ from_row-seen r.0 w'
      ∙ ap (λ d. row_answer (x.query_row uid d).0) (yield-Undisturbed w).db

  from_entry-seen :
      (uid : String) (found : Option PlaybackSession) (w : World x)
      → seen (from_entry x uid found w) ≡ get_answer found (x.query_row uid w.db).0
  from_entry-seen uid (some s) w = ground arith
  from_entry-seen uid none w = fall_back-seen uid _

  from_cache-seen :
      (uid : String) (reply : Outcome x.Bytes) (w : World x)
      → seen (from_cache x uid reply w) ≡ get_answer (usable reply) (x.query_row uid w.db).0
  from_cache-seen uid (ok b) w = from_entry-seen uid (unmarshal_session x b) w
  from_cache-seen uid (err e) w = elim (Bool-cases (is e redis_nil)) [
    | inl miss ↦ rw miss (fall_back-seen uid w)
    | inr down ↦ rw down (fall_back-seen uid _)
  ]

  -- `Get` answers with the cached session if Redis has a usable one, else with the row as it
  -- was at the start, where no other request or message comes between: goroutines that warm the cache
  -- may.
  pub get-seen :
      (uid : String) (w : World x)
      → seen (get x uid w)
        ≡ get_answer
            (usable (x.cache_get (cache_key_prefix <> uid) (yield x w).1.cache).0)
            (x.query_row uid w.db).0
  unfolding get redis_get
  get-seen uid w =
      let u = (yield x w).1 in
      let r = x.cache_get (cache_key_prefix <> uid) u.cache in
      from_cache-seen uid r.0 (record u { cache = r.1 })
      ∙ ap (λ d. get_answer (usable r.0) (x.query_row uid d).0) (yield-Undisturbed w).db
