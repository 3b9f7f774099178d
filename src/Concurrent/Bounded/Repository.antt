-- ===== src/Concurrent/Bounded/Repository.antt =====
-- internal/session/repository.go: how many calls an operation makes at most.
use playback_service.Prelude.{ℕ, String, Bool-cases, inl, inr, Option, none, some, arith}
use playback_service.Apperror.{redis_nil, no_rows, is}
use playback_service.Session.Model.{PlaybackSession}
use playback_service.Session.Repository.{unmarshal_session}
use playback_service.External.{External, Outcome, ok, err}
use playback_service.World.Tasks.{marshal_for_cache}
use playback_service.Concurrent.{◌>>=◌, ◌>>◌}
use playback_service.Concurrent.Repository.{
  scanned, get_from_db, sent_bytes, set_cache, upsert, warming, from_db, entry_found,
  cache_answered, get,
}
use playback_service.Concurrent.Bounded.{Within, Within-more, Within-bind}

module _ (x : External) where
  scanned-Within : (r : Outcome PlaybackSession) → Within 1 (scanned x r)
  unfolding ◌>>=◌ Within
  scanned-Within (ok s) = λ p. tt
  scanned-Within (err e) = elim (Bool-cases (is e no_rows)) [
    | inl missing ↦ rw missing tt
    | inr other ↦ rw other tt
  ]

  warming-Within : (uid : String) (r : Outcome ℕ) → Within 1 (warming x uid r)
  unfolding ◌>>=◌ ◌>>◌ Within
  warming-Within uid (err e) = tt
  warming-Within uid (ok p) = λ u. tt

  from_db-Within : (uid : String) → Within 3 (from_db x uid)
  unfolding from_db get_from_db ◌>>=◌ Within
  from_db-Within uid = λ row.
      Within-bind 1 1 (scanned x row) (warming x uid) (scanned-Within row) (warming-Within uid)

  entry_found-Within :
      (uid : String) (found : Option PlaybackSession) → Within 4 (entry_found x uid found)
  unfolding ◌>>=◌ ◌>>◌ Within
  entry_found-Within uid (some s) = λ p. tt
  entry_found-Within uid none = λ u. from_db-Within uid

  cache_answered-Within :
      (uid : String) (reply : Outcome x.Bytes) → Within 4 (cache_answered x uid reply)
  unfolding ◌>>=◌ ◌>>◌ Within
  cache_answered-Within uid (ok b) = entry_found-Within uid (unmarshal_session x b)
  cache_answered-Within uid (err e) = elim (Bool-cases (is e redis_nil)) [
    | inl miss ↦ rw miss (Within-more 3 4 (from_db x uid) (omega arith) (from_db-Within uid))
    | inr down ↦ rw down (λ u. from_db-Within uid)
  ]

  pub get-Within : (uid : String) → Within 5 (get x uid)
  unfolding get ◌>>=◌ Within
  get-Within uid = λ reply. cache_answered-Within uid reply

  sent_bytes-Within : (m : Outcome (String × x.Bytes)) → Within 1 (sent_bytes x m)
  unfolding Within
  sent_bytes-Within (ok (key, b)) = λ r. tt
  sent_bytes-Within (err e) = tt

  pub set_cache-Within : (p : ℕ) → Within 2 (set_cache x p)
  unfolding set_cache ◌>>=◌ Within
  set_cache-Within p = λ s. sent_bytes-Within (marshal_for_cache x s)

  pub upsert-Within : (p : ℕ) → Within 2 (upsert x p)
  unfolding upsert ◌>>=◌ Within
  upsert-Within p = λ s r. tt
