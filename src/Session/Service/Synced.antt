-- ===== src/Session/Service/Synced.antt =====
-- What another device reads after a heartbeat, while no goroutine runs in the background.
use playback_service.Prelude.{
  ℕ, String, ◌<>◌, ◌≡◌, refl, ap, ◌∙◌, true, Option, none, some, [], ℤ, pos, fits, arith,
}
use mathlib.Core.Path.{subst}
use playback_service.Apperror.{Fault}
use playback_service.Json.{Json}
use playback_service.Session.Model.{PlaybackSession, HeartbeatRequest, encode_session}
use playback_service.External.{External, Outcome, ok, err}
use playback_service.External.Laws.{IsReadable, IsRedis}
use playback_service.World.{World, allocate}
use playback_service.World.Tasks.{cache_key_prefix}
use playback_service.World.Calls.{read_clock, writer_write, pool_exec}
use playback_service.World.Quiet.{Quiet, Quiet-trans, yield-Quiet}
use playback_service.Kafka.Event.{new_envelope}
use playback_service.Kafka.Producer.{publish}
use playback_service.Session.Repository.{set_cache, upsert}
use playback_service.Session.Repository.Answers.{seen}
use playback_service.Session.Repository.Synced.{Cached, Cached-Quiet, set_cache-Cached, get-Cached}
use playback_service.Session.Service.{
  warn_cache, published, persisted, send_heartbeat, heartbeat, heartbeat_topic, get_current,
}
use playback_service.Session.Service.Heartbeat.{beat}

module _ (x : External) where
  pub warn_cache-Quiet :
      (message uid : String) (r : Option Fault) (w : World x)
      → w.tasks ≡ []
      → Quiet w (warn_cache x message uid r w).1
  warn_cache-Quiet message uid none w h = record { tasks = h; cache = refl }
  warn_cache-Quiet message uid (some e) w h = record { tasks = h; cache = refl }

  pub upsert-Quiet : (p : ℕ) (w : World x) → w.tasks ≡ [] → Quiet w (upsert x p w).1
  unfolding upsert pool_exec
  upsert-Quiet p w h = let q = yield-Quiet w h in record { tasks = q.tasks; cache = q.cache }

  publish-Quiet :
      (topic uid : String) (b : x.Bytes) (w : World x)
      → w.tasks ≡ []
      → Quiet w (publish x topic uid b w).1
  unfolding publish writer_write
  publish-Quiet topic uid b w h =
      let q = yield-Quiet w h in record { tasks = q.tasks; cache = q.cache }

  persisted-Quiet : (r : Option Fault) (w : World x) → w.tasks ≡ [] → Quiet w (persisted x r w).1
  persisted-Quiet none w h = record { tasks = h; cache = refl }
  persisted-Quiet (some e) w h = record { tasks = h; cache = refl }

  published-Quiet :
      (uid : String) (p : ℕ) (r : Option Fault) (w : World x)
      → w.tasks ≡ []
      → Quiet w (published x uid p r w).1
  published-Quiet uid p none w h = record { tasks = h; cache = refl }
  published-Quiet uid p (some e) w h =
      let q = upsert-Quiet p _ h in
      let r = persisted-Quiet _ _ q.tasks in record { tasks = r.tasks; cache = r.cache ∙ q.cache }

  send_heartbeat-Quiet :
      (uid : String) (p : ℕ) (r : Outcome x.Bytes) (w : World x)
      → w.tasks ≡ []
      → Quiet w (send_heartbeat x uid p r w).1
  unfolding send_heartbeat
  send_heartbeat-Quiet uid p (err e) w h = record { tasks = h; cache = refl }
  send_heartbeat-Quiet uid p (ok b) w h =
      let q = publish-Quiet heartbeat_topic uid b w h in
      Quiet-trans q (published-Quiet uid p _ _ q.tasks)

  new_envelope-Quiet :
      (topic : String) (version : ℤ) (payload : Option Json) (w : World x)
      → w.tasks ≡ []
      → Quiet w (new_envelope x topic version payload w).1
  unfolding new_envelope read_clock
  new_envelope-Quiet topic version none w h = record { tasks = h; cache = refl }
  new_envelope-Quiet topic version (some v) w h = record { tasks = h; cache = refl }

module _ (x : External) (uid : String) (req : HeartbeatRequest) (w : World x) where
  -- The world in which `Heartbeat` calls `SetCache`, and what that call answers.
  unfoldable pub before_cache : World x
  unfolding read_clock
  before_cache = (allocate (beat x uid req w) (read_clock x w).1).1

  unfoldable pub cache_reply : Option Fault
  unfolding before_cache
  cache_reply = (set_cache x w.next before_cache).0

  before_cache-object : before_cache.objects w.next ≡ beat x uid req w
  unfolding before_cache read_clock
  before_cache-object = ground arith

  before_cache-tasks : before_cache.tasks ≡ w.tasks
  unfolding before_cache read_clock
  before_cache-tasks = refl

  heartbeat-Cached :
      (redis : IsRedis x) (readable : IsReadable x)
      → w.tasks ≡ []
      → fits 64 req.position ≡ true
      → cache_reply ≡ none
      → Cached x redis (beat x uid req w) (heartbeat x uid req w).1
  unfolding heartbeat cache_reply before_cache read_clock
  heartbeat-Cached redis readable h small done =
      let c = set_cache x w.next before_cache in
      let v = (warn_cache x "redis cache miss on heartbeat" uid c.0 c.1).1 in
      let m = encode_session x.format_time x.parse_time (v.objects w.next) in
      let e = new_envelope x heartbeat_topic (pos 1) m v in
      let written =
        subst (λ s. Cached x redis s c.1) before_cache-object
          (set_cache-Cached x redis readable w.next before_cache (before_cache-tasks ∙ h)
            (ap (λ (s : PlaybackSession). fits 64 s.position) before_cache-object ∙ small) done) in
      let warned = warn_cache-Quiet x "redis cache miss on heartbeat" uid c.0 c.1 written.tasks in
      let encoded = new_envelope-Quiet x heartbeat_topic (pos 1) m v warned.tasks in
      let sent = send_heartbeat-Quiet x uid w.next e.0 e.1 encoded.tasks in
      Cached-Quiet x redis (Quiet-trans warned (Quiet-trans encoded sent)) written

-- Another device sees a heartbeat at once. With no goroutine in the background, if Redis takes
-- the write of the heartbeat and answers the read of its user's key, the next `GetCurrent` of the
-- user returns the session of the heartbeat, whatever Kafka and PostgreSQL do and also where the
-- heartbeat failed. The position is a Go integer. This relies on the laws of Redis and the text
-- forms.
pub heartbeat_synced :
    {x : External} (readable : IsReadable x) (redis : IsRedis x) (uid : String)
    (req : HeartbeatRequest) (w : World x) (b : x.Bytes)
    → w.tasks ≡ []
    → fits 64 req.position ≡ true
    → cache_reply x uid req w ≡ none
    → (x.cache_get (cache_key_prefix <> uid) (heartbeat x uid req w).1.cache).0 ≡ ok b
    → seen (get_current x uid (heartbeat x uid req w).1) ≡ ok (beat x uid req w)
unfolding get_current
heartbeat_synced {x} readable redis uid req w b h small done hit =
    get-Cached x redis (beat x uid req w) (heartbeat x uid req w).1 b
      (heartbeat-Cached x uid req w redis readable h small done) hit
