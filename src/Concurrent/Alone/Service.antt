-- ===== src/Concurrent/Alone/Service.antt =====
-- internal/session/service.go: the calls in a row are the operations of Session/Service.
use playback_service.Prelude.{ℕ, String, refl, Option, none, some, pos, ℤ}
use playback_service.Apperror.{Fault}
use playback_service.Json.{Json}
use playback_service.Session.Model.{
  StartRequest, HeartbeatRequest, status_playing, status_paused, encode_session,
}
use playback_service.Session.Repository as WholeRepository
use playback_service.Session.Service as Whole
use playback_service.Kafka.Event as WholeEvent
use playback_service.Kafka.Producer as WholeProducer
use playback_service.External.{External, Outcome, ok, err}
use playback_service.World.{allocate}
use playback_service.World.Calls.{read_clock}
use playback_service.Concurrent.{run, ◌>>=◌, ◌>>◌}
use playback_service.Concurrent.Repository
use playback_service.Concurrent.Service.{
  warned, after_upsert, saving, start, get_current, publish, new_envelope, fallen_back,
  after_publish, sending, heartbeat, assigning, changing, pause, resume,
}
use playback_service.Concurrent.Alone.{Runs, Runs-bind}
use playback_service.Concurrent.Alone.Repository.{get-Runs, set_cache-Runs, upsert-Runs}

module _ (x : External) where
  warned-Runs :
      (message uid : String) (r : Option Fault)
      → Runs (warned x message uid r) (Whole.warn_cache x message uid r)
  unfolding run
  warned-Runs message uid none w = refl
  warned-Runs message uid (some e) w = refl

  after_upsert-Runs :
      (warning uid : String) (p : ℕ) (r : Option Fault) (failed : String)
      → Runs (after_upsert x warning uid p r failed) (Whole.cache_saved x warning uid p r failed)
  unfolding run ◌>>=◌ ◌>>◌
  after_upsert-Runs warning uid p (some e) failed w = refl
  after_upsert-Runs warning uid p none failed w =
      Runs-bind (Repository.set_cache x p) (WholeRepository.set_cache x p) _ _ (set_cache-Runs x p)
        (λ cached v.
          Runs-bind (warned x warning uid cached) (Whole.warn_cache x warning uid cached) _ _
            (warned-Runs warning uid cached) (λ u z. refl) v)
        w

  saving-Runs :
      (failed warning uid : String) (p : ℕ)
      → Runs (saving x failed warning uid p) (Whole.save x failed warning uid p)
  unfolding run saving Whole.save
  saving-Runs failed warning uid p w =
      Runs-bind (Repository.upsert x p) (WholeRepository.upsert x p) _ _ (upsert-Runs x p)
        (λ saved. after_upsert-Runs warning uid p saved failed) w

  pub start-Runs :
      (uid : String) (req : StartRequest) → Runs (start x uid req) (Whole.start x uid req)
  unfolding run ◌>>=◌ start Whole.start
  start-Runs uid req w = saving-Runs _ _ uid _ _

  pub get_current-Runs : (uid : String) → Runs (get_current x uid) (Whole.get_current x uid)
  unfolding get_current Whole.get_current
  get_current-Runs uid = get-Runs x uid

  new_envelope-Runs :
      (topic : String) (version : ℤ) (payload : Option Json)
      → Runs
          (new_envelope x topic version payload)
          (WholeEvent.new_envelope x topic version payload)
  unfolding run ◌>>=◌ new_envelope WholeEvent.new_envelope
  new_envelope-Runs topic version none w = refl
  new_envelope-Runs topic version (some v) w = refl

  fallen_back-Runs : (r : Option Fault) → Runs (fallen_back x r) (Whole.persisted x r)
  unfolding run
  fallen_back-Runs none w = refl
  fallen_back-Runs (some e) w = refl

  after_publish-Runs :
      (uid : String) (p : ℕ) (r : Option Fault)
      → Runs (after_publish x uid p r) (Whole.published x uid p r)
  unfolding run ◌>>=◌ ◌>>◌
  after_publish-Runs uid p none w = refl
  after_publish-Runs uid p (some e) w =
      Runs-bind (Repository.upsert x p) (WholeRepository.upsert x p) (fallen_back x)
        (Whole.persisted x) (upsert-Runs x p) fallen_back-Runs _

  sending-Runs :
      (uid : String) (p : ℕ) (r : Outcome x.Bytes)
      → Runs (sending x uid p r) (Whole.send_heartbeat x uid p r)
  unfolding run ◌>>=◌ sending Whole.send_heartbeat publish WholeProducer.publish
  sending-Runs uid p (err e) w = refl
  sending-Runs uid p (ok b) w = after_publish-Runs uid p _ _

  pub heartbeat-Runs :
      (uid : String) (req : HeartbeatRequest)
      → Runs (heartbeat x uid req) (Whole.heartbeat x uid req)
  unfolding run ◌>>=◌ ◌>>◌ heartbeat Whole.heartbeat
  heartbeat-Runs uid req w =
      let t = read_clock x w in
      let fresh = allocate (Whole.heartbeat_session uid req t.0) t.1 in
      Runs-bind (Repository.set_cache x fresh.0) (WholeRepository.set_cache x fresh.0) _ _
        (set_cache-Runs x fresh.0)
        (λ cached v.
          Runs-bind (warned x "redis cache miss on heartbeat" uid cached)
            (Whole.warn_cache x "redis cache miss on heartbeat" uid cached) _ _
            (warned-Runs _ uid cached)
            (λ u z.
              Runs-bind
                (new_envelope x Whole.heartbeat_topic (pos 1)
                  (encode_session x.format_time x.parse_time (z.objects fresh.0)))
                (WholeEvent.new_envelope x Whole.heartbeat_topic (pos 1)
                  (encode_session x.format_time x.parse_time (z.objects fresh.0)))
                (sending x uid fresh.0) (Whole.send_heartbeat x uid fresh.0)
                (new_envelope-Runs _ _ _) (sending-Runs uid fresh.0) z)
            v)
        fresh.1

  changing-Runs :
      (status failed warning uid device : String) (r : Outcome ℕ)
      → Runs
          (changing x status failed warning uid device r)
          (Whole.change_status x status failed warning uid device r)
  unfolding run ◌>>=◌ ◌>>◌ changing assigning Whole.change_status Whole.set_status
  changing-Runs status failed warning uid device (err e) w = refl
  changing-Runs status failed warning uid device (ok p) w = saving-Runs failed warning uid p _

  pub pause-Runs : (uid device : String) → Runs (pause x uid device) (Whole.pause x uid device)
  unfolding pause Whole.pause
  pause-Runs uid device w =
      Runs-bind (Repository.get x uid) (WholeRepository.get x uid) _ _ (get-Runs x uid)
        (λ found. changing-Runs status_paused _ _ uid device found) w

  pub resume-Runs : (uid device : String) → Runs (resume x uid device) (Whole.resume x uid device)
  unfolding resume Whole.resume
  resume-Runs uid device w =
      Runs-bind (Repository.get x uid) (WholeRepository.get x uid) _ _ (get-Runs x uid)
        (λ found. changing-Runs status_playing _ _ uid device found) w
