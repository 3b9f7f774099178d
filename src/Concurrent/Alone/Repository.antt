-- ===== src/Concurrent/Alone/Repository.antt =====
-- internal/session/repository.go: the calls in a row are the operations of Session/Repository.
use playback_service.Prelude.{ℕ, String, ◌<>◌, refl, Bool-cases, inl, inr, Option, none, some}
use playback_service.Apperror.{redis_nil, no_rows, is}
use playback_service.Session.Model.{PlaybackSession}
use playback_service.Session.Repository as Whole
use playback_service.External.{External, Outcome, ok, err}
use playback_service.World.Tasks.{cache_key_prefix, marshal_for_cache}
use playback_service.World.Calls.{pool_query, redis_get}
use playback_service.Concurrent.{run, ◌>>=◌, ◌>>◌}
use playback_service.Concurrent.Repository.{
  scanned, get_from_db, sent_bytes, set_cache, upsert, warming, from_db, entry_found,
  cache_answered, get,
}
use playback_service.Concurrent.Alone.{Runs, Runs-bind}

module _ (x : External) where
  scanned-Runs : (r : Outcome PlaybackSession) → Runs (scanned x r) (Whole.from_row x r)
  unfolding run ◌>>=◌
  scanned-Runs (ok s) w = refl
  scanned-Runs (err e) w = elim (Bool-cases (is e no_rows)) [
    | inl missing ↦ rw missing refl
    | inr other ↦ rw other refl
  ]

  warming-Runs : (uid : String) (r : Outcome ℕ) → Runs (warming x uid r) (Whole.warm x uid r)
  unfolding run ◌>>=◌ ◌>>◌
  warming-Runs uid (ok p) w = refl
  warming-Runs uid (err e) w = refl

  from_db-Runs : (uid : String) → Runs (from_db x uid) (Whole.fall_back x uid)
  unfolding run ◌>>=◌ from_db get_from_db Whole.fall_back Whole.get_from_db
  from_db-Runs uid w =
      let row = pool_query x uid w in
      Runs-bind (scanned x row.0) (Whole.from_row x row.0) (warming x uid) (Whole.warm x uid)
        (scanned-Runs row.0) (warming-Runs uid) row.1

  entry_found-Runs :
      (uid : String) (found : Option PlaybackSession)
      → Runs (entry_found x uid found) (Whole.from_entry x uid found)
  unfolding run ◌>>=◌ ◌>>◌
  entry_found-Runs uid (some s) w = refl
  entry_found-Runs uid none w = from_db-Runs uid _

  cache_answered-Runs :
      (uid : String) (reply : Outcome x.Bytes)
      → Runs (cache_answered x uid reply) (Whole.from_cache x uid reply)
  unfolding run ◌>>=◌ ◌>>◌
  cache_answered-Runs uid (ok b) w = entry_found-Runs uid (Whole.unmarshal_session x b) w
  cache_answered-Runs uid (err e) w = elim (Bool-cases (is e redis_nil)) [
    | inl miss ↦ rw miss (from_db-Runs uid w)
    | inr down ↦ rw down (from_db-Runs uid _)
  ]

  pub get-Runs : (uid : String) → Runs (get x uid) (Whole.get x uid)
  unfolding run ◌>>=◌ get Whole.get
  get-Runs uid w =
      let reply = redis_get x (cache_key_prefix <> uid) w in cache_answered-Runs uid reply.0 reply.1

  sent_bytes-Runs : (m : Outcome (String × x.Bytes)) → Runs (sent_bytes x m) (Whole.set_bytes x m)
  unfolding run
  sent_bytes-Runs (ok (key, b)) w = refl
  sent_bytes-Runs (err e) w = refl

  pub set_cache-Runs : (p : ℕ) → Runs (set_cache x p) (Whole.set_cache x p)
  unfolding run ◌>>=◌ set_cache Whole.set_cache
  set_cache-Runs p w = sent_bytes-Runs (marshal_for_cache x (w.objects p)) w

  pub upsert-Runs : (p : ℕ) → Runs (upsert x p) (Whole.upsert x p)
  unfolding run ◌>>=◌ upsert Whole.upsert
  upsert-Runs p w = refl
