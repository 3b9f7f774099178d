-- ===== src/Session/Repository/Effects.antt =====
-- What the writes of the repository change, whatever the other goroutines do meanwhile.
use playback_service.Prelude.{ℕ, String, ◌≡◌, arith}
use playback_service.External.{External, Outcome, ok, err}
use playback_service.World.{World}
use playback_service.World.Tasks.{marshal_for_cache}
use playback_service.World.Calls.{redis_get, redis_set, pool_exec}
use playback_service.World.Frame.{Undisturbed, yield-Undisturbed}
use playback_service.Session.Repository.{set_bytes, set_cache, upsert_reply, upsert}

-- `after` differs from `before` in its database at most, beside what other goroutines change.
pub record Writes {x : External} (d : x.Db) (before after : World x) : Type 0 where
  pub db : after.db ≡ d
  pub broker : after.broker ≡ before.broker
  pub clock : after.clock ≡ before.clock
  pub objects : after.objects ≡ before.objects
  pub next : after.next ≡ before.next

module _ (x : External) where
  pub redis_get-Undisturbed : (key : String) (w : World x) → Undisturbed w (redis_get x key w).1
  unfolding redis_get
  redis_get-Undisturbed key w = ground (arith, yield-Undisturbed w)

  pub redis_set-Undisturbed :
      (key : String) (b : x.Bytes) (ttl : ℕ) (w : World x)
      → Undisturbed w (redis_set x key b ttl w).1
  unfolding redis_set
  redis_set-Undisturbed key b ttl w = ground (arith, yield-Undisturbed w)

  set_bytes-Undisturbed :
      (m : Outcome (String × x.Bytes)) (w : World x) → Undisturbed w (set_bytes x m w).1
  set_bytes-Undisturbed (ok (key, b)) w = redis_set-Undisturbed key b _ w
  set_bytes-Undisturbed (err e) w = ground arith

  -- A write of the cache touches no other store.
  pub set_cache-Undisturbed : (p : ℕ) (w : World x) → Undisturbed w (set_cache x p w).1
  unfolding set_cache
  set_cache-Undisturbed p w = set_bytes-Undisturbed (marshal_for_cache x (w.objects p)) w

  pub upsert-Writes :
      (p : ℕ) (w : World x) → Writes (x.exec_upsert (w.objects p) w.db).1 w (upsert x p w).1
  unfolding upsert pool_exec
  upsert-Writes p w = ground (arith, yield-Undisturbed w)

  pub upsert_lem :
      (p : ℕ) (w : World x) → (upsert x p w).0 ≡ upsert_reply x (x.exec_upsert (w.objects p) w.db).0
  unfolding upsert pool_exec
  upsert_lem p w = ground (arith, yield-Undisturbed w)
