-- ===== src/Session/Stable/Service.antt =====
-- internal/session/service.go: what every primitive step keeps, the service keeps.
use playback_service.Prelude.{ℕ, String, refl, Option, none, some, pos, ℤ}
use playback_service.Apperror.{Fault}
use playback_service.Json.{Json}
use playback_service.Session.Model.{
  StartRequest, HeartbeatRequest, encode_session, status_paused, status_playing,
}
use playback_service.External.{External, Outcome, ok, err}
use playback_service.World.{World, allocate}
use playback_service.World.Calls.{read_clock, assign}
use playback_service.World.Stable.{Keeps, IsStable}
use playback_service.Kafka.Event.{new_envelope}
use playback_service.Kafka.Producer.{publish}
use playback_service.Session.Repository
use playback_service.Session.Service.{
  heartbeat_topic, start_session, heartbeat_session, warn_cache, cache_saved, save, start,
  get_current, persisted, published, send_heartbeat, heartbeat, set_status, change_status, pause,
  resume,
}
use playback_service.Session.Stable.Repository.{get-Keeps, set_cache-Keeps, upsert-Keeps}

module _ {x : External} (I : World x → Type 0) (stable : IsStable I) where
  warn_cache-Keeps :
      (message uid : String) (r : Option Fault) → Keeps I (warn_cache x message uid r)
  warn_cache-Keeps message uid none w i = i
  warn_cache-Keeps message uid (some e) w i = stable.log _ _ _ w i

  cache_saved-Keeps :
      (warned uid : String) (p : ℕ) (saved : Option Fault) (failed : String)
      → Keeps I (cache_saved x warned uid p saved failed)
  cache_saved-Keeps warned uid p (some e) failed w i = i
  cache_saved-Keeps warned uid p none failed w i =
      warn_cache-Keeps warned uid _ _ (set_cache-Keeps I stable p w i)

  save-Keeps : (failed warned uid : String) (p : ℕ) → Keeps I (save x failed warned uid p)
  unfolding save
  save-Keeps failed warned uid p w i =
      cache_saved-Keeps warned uid p _ failed _ (upsert-Keeps I stable p w i)

  pub start-Keeps : (uid : String) (req : StartRequest) → Keeps I (start x uid req)
  unfolding start
  start-Keeps uid req w i =
      let t = read_clock x w in
      save-Keeps "failed to start session" "failed to cache new session" uid _ _
        (stable.allocated (start_session uid req t.0) t.1 (stable.clock w i))

  pub get_current-Keeps : (uid : String) → Keeps I (get_current x uid)
  unfolding get_current
  get_current-Keeps uid = get-Keeps I stable uid

  persisted-Keeps : (r : Option Fault) → Keeps I (persisted x r)
  persisted-Keeps none w i = i
  persisted-Keeps (some e) w i = i

  published-Keeps : (uid : String) (p : ℕ) (r : Option Fault) → Keeps I (published x uid p r)
  published-Keeps uid p none w i = i
  published-Keeps uid p (some e) w i =
      persisted-Keeps _ _ (upsert-Keeps I stable p _ (stable.log _ _ _ w i))

  send_heartbeat-Keeps :
      (uid : String) (p : ℕ) (r : Outcome x.Bytes) → Keeps I (send_heartbeat x uid p r)
  unfolding send_heartbeat publish
  send_heartbeat-Keeps uid p (err e) w i = i
  send_heartbeat-Keeps uid p (ok b) w i =
      published-Keeps uid p _ _ (stable.write heartbeat_topic uid b w i)

  new_envelope-Keeps :
      (topic : String) (version : ℤ) (payload : Option Json)
      → Keeps I (new_envelope x topic version payload)
  unfolding new_envelope
  new_envelope-Keeps topic version none w i = i
  new_envelope-Keeps topic version (some v) w i = stable.clock w i

  pub heartbeat-Keeps : (uid : String) (req : HeartbeatRequest) → Keeps I (heartbeat x uid req)
  unfolding heartbeat
  heartbeat-Keeps uid req w i =
      let t = read_clock x w in
      let fresh = allocate (heartbeat_session uid req t.0) t.1 in
      let c = Repository.set_cache x fresh.0 fresh.1 in
      let v = (warn_cache x "redis cache miss on heartbeat" uid c.0 c.1).1 in
      let e =
        new_envelope x heartbeat_topic (pos 1)
          (encode_session x.format_time x.parse_time (v.objects fresh.0)) v in
      send_heartbeat-Keeps uid fresh.0 e.0 e.1 (
        new_envelope-Keeps _ _ _ v (
          warn_cache-Keeps _ uid c.0 c.1 (
            set_cache-Keeps I stable fresh.0 fresh.1
              (stable.allocated (heartbeat_session uid req t.0) t.1 (stable.clock w i)))))

  set_status-Keeps : (status device : String) (p : ℕ) → Keeps I (set_status x status device p)
  unfolding set_status
  set_status-Keeps status device p w i =
      let a = (assign x p (λ s. record s { status = status }) w).1 in
      let b = (assign x p (λ s. record s { device_id = device }) a).1 in
      let t = read_clock x b in
      stable.assigned p (λ s. record s { updated_at = t.0 }) (λ s. refl) t.1
        (stable.clock b (
          stable.assigned p (λ s. record s { device_id = device }) (λ s. refl) a
            (stable.assigned p (λ s. record s { status = status }) (λ s. refl) w i)))

  change_status-Keeps :
      (status failed warned uid device : String) (r : Outcome ℕ)
      → Keeps I (change_status x status failed warned uid device r)
  unfolding change_status
  change_status-Keeps status failed warned uid device (err e) w i = i
  change_status-Keeps status failed warned uid device (ok p) w i =
      save-Keeps failed warned uid p _ (set_status-Keeps status device p w i)

  pub pause-Keeps : (uid device : String) → Keeps I (pause x uid device)
  unfolding pause
  pause-Keeps uid device w i =
      change_status-Keeps status_paused "failed to pause session" "failed to cache paused session"
        uid device _ _ (get-Keeps I stable uid w i)

  pub resume-Keeps : (uid device : String) → Keeps I (resume x uid device)
  unfolding resume
  resume-Keeps uid device w i =
      change_status-Keeps status_playing "failed to resume session"
        "failed to cache resumed session" uid device _ _ (get-Keeps I stable uid w i)
