-- ===== src/Session/Stable/Repository.antt =====
-- internal/session/repository.go: what every primitive step keeps, the repository keeps.
use playback_service.Prelude.{ℕ, String, ◌<>◌, ◌≡◌, refl, Bool-cases, inl, inr, Option, none, some}
use playback_service.Apperror.{redis_nil, no_rows, is}
use playback_service.Session.Model.{PlaybackSession}
use playback_service.External.{External, Outcome, ok, err}
use playback_service.World.{World}
use playback_service.World.Tasks.{cache_key_prefix, marshal_for_cache}
use playback_service.World.Calls.{pool_query}
use playback_service.World.Stable.{Keeps, IsStable}
use playback_service.Session.Repository.{
  unmarshal_session, from_row, get_from_db, set_bytes, set_cache, upsert, warm, fall_back,
  from_entry, from_cache, get,
}

module _ {x : External} (I : World x → Type 0) (stable : IsStable I) where
  from_row-Keeps : (r : Outcome PlaybackSession) → Keeps I (from_row x r)
  from_row-Keeps (ok s) w i = stable.allocated s w i
  from_row-Keeps (err e) w i = elim (Bool-cases (is e no_rows)) [
    | inl missing ↦ rw missing i
    | inr other ↦ rw other i
  ]

  warm-Keeps : (uid : String) (r : Outcome ℕ) → Keeps I (warm x uid r)
  warm-Keeps uid (ok p) w i = stable.spawned uid p w i
  warm-Keeps uid (err e) w i = i

  fall_back-Keeps : (uid : String) → Keeps I (fall_back x uid)
  unfolding fall_back get_from_db
  fall_back-Keeps uid w i =
      let q = pool_query x uid w in
      let r = from_row x q.0 q.1 in
      warm-Keeps uid r.0 r.1 (from_row-Keeps q.0 q.1 (stable.query uid w i))

  from_entry-Keeps :
      (uid : String) (found : Option PlaybackSession) → Keeps I (from_entry x uid found)
  from_entry-Keeps uid (some s) w i = stable.allocated s w i
  from_entry-Keeps uid none w i = fall_back-Keeps uid _ (stable.log _ _ _ w i)

  from_cache-Keeps : (uid : String) (reply : Outcome x.Bytes) → Keeps I (from_cache x uid reply)
  from_cache-Keeps uid (ok b) w i = from_entry-Keeps uid (unmarshal_session x b) w i
  from_cache-Keeps uid (err e) w i = elim (Bool-cases (is e redis_nil)) [
    | inl miss ↦ rw miss (fall_back-Keeps uid w i)
    | inr down ↦ rw down (fall_back-Keeps uid _ (stable.log _ _ _ w i))
  ]

  pub get-Keeps : (uid : String) → Keeps I (get x uid)
  unfolding get
  get-Keeps uid w i = from_cache-Keeps uid _ _ (stable.get (cache_key_prefix <> uid) w i)

  set_bytes-Keeps :
      (s : PlaybackSession) (m : Outcome (String × x.Bytes))
      → marshal_for_cache x s ≡ m
      → Keeps I (set_bytes x m)
  set_bytes-Keeps s (ok (key, b)) e w i = stable.set s key b e w i
  set_bytes-Keeps s (err f) e w i = i

  pub set_cache-Keeps : (p : ℕ) → Keeps I (set_cache x p)
  unfolding set_cache
  set_cache-Keeps p w i = set_bytes-Keeps (w.objects p) (marshal_for_cache x (w.objects p)) refl w i

  pub upsert-Keeps : (p : ℕ) → Keeps I (upsert x p)
  unfolding upsert
  upsert-Keeps p w i = stable.exec (w.objects p) w i
