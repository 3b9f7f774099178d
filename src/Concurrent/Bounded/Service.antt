-- ===== src/Concurrent/Bounded/Service.antt =====
-- internal/session/service.go: how many calls an operation makes at most.
use playback_service.Prelude.{ℕ, String, Option, none, some, pos, ℤ}
use playback_service.Apperror.{Fault}
use playback_service.Json.{Json}
use playback_service.Session.Model.{StartRequest, HeartbeatRequest, status_playing, status_paused}
use playback_service.Session.Service.{heartbeat_topic}
use playback_service.External.{External, Outcome, ok, err}
use playback_service.Concurrent.{◌>>=◌, ◌>>◌}
use playback_service.Concurrent.Repository
use playback_service.Concurrent.Service.{
  warned, after_upsert, saving, start, get_current, publish, new_envelope, fallen_back,
  after_publish, sending, heartbeat, assigning, changing, pause, resume,
}
use playback_service.Concurrent.Bounded.{Within, Within-bind}
use playback_service.Concurrent.Bounded.Repository.{get-Within, set_cache-Within, upsert-Within}

module _ (x : External) where
  warned-Within : (message uid : String) (r : Option Fault) → Within 1 (warned x message uid r)
  unfolding Within
  warned-Within message uid none = tt
  warned-Within message uid (some e) = λ u. tt

  after_upsert-Within :
      (warning uid : String) (p : ℕ) (r : Option Fault) (failed : String)
      → Within 3 (after_upsert x warning uid p r failed)
  unfolding Within ◌>>◌
  after_upsert-Within warning uid p (some e) failed = tt
  after_upsert-Within warning uid p none failed =
      Within-bind 2 1 (Repository.set_cache x p) _ (set_cache-Within x p)
        λ r. Within-bind 1 0 (warned x warning uid r) _ (warned-Within warning uid r) λ u. tt

  saving-Within : (failed warning uid : String) (p : ℕ) → Within 5 (saving x failed warning uid p)
  unfolding saving
  saving-Within failed warning uid p =
      Within-bind 2 3 (Repository.upsert x p) _ (upsert-Within x p)
        λ r. after_upsert-Within warning uid p r failed

  pub start-Within : (uid : String) (req : StartRequest) → Within 7 (start x uid req)
  unfolding start ◌>>=◌ Within
  start-Within uid req = λ t p. saving-Within _ _ uid p

  pub get_current-Within : (uid : String) → Within 5 (get_current x uid)
  unfolding get_current
  get_current-Within uid = get-Within x uid

  changing-Within :
      (status failed warning uid device : String) (r : Outcome ℕ)
      → Within 9 (changing x status failed warning uid device r)
  unfolding changing assigning ◌>>=◌ ◌>>◌ Within
  changing-Within status failed warning uid device (err e) = tt
  changing-Within status failed warning uid device (ok p) =
      λ a b t c. saving-Within failed warning uid p

  pub pause-Within : (uid device : String) → Within 14 (pause x uid device)
  unfolding pause
  pause-Within uid device =
      Within-bind 5 9 (Repository.get x uid) _ (get-Within x uid)
        λ r. changing-Within status_paused _ _ uid device r

  pub resume-Within : (uid device : String) → Within 14 (resume x uid device)
  unfolding resume
  resume-Within uid device =
      Within-bind 5 9 (Repository.get x uid) _ (get-Within x uid)
        λ r. changing-Within status_playing _ _ uid device r

  new_envelope-Within :
      (topic : String) (version : ℤ) (payload : Option Json)
      → Within 1 (new_envelope x topic version payload)
  unfolding new_envelope ◌>>=◌ Within
  new_envelope-Within topic version none = tt
  new_envelope-Within topic version (some v) = λ t. tt

  fallen_back-Within : (r : Option Fault) → Within 0 (fallen_back x r)
  unfolding Within
  fallen_back-Within none = tt
  fallen_back-Within (some e) = tt

  after_publish-Within :
      (uid : String) (p : ℕ) (r : Option Fault) → Within 3 (after_publish x uid p r)
  unfolding ◌>>=◌ ◌>>◌ Within
  after_publish-Within uid p none = tt
  after_publish-Within uid p (some e) = λ u.
      Within-bind 2 0 (Repository.upsert x p) (fallen_back x) (upsert-Within x p) fallen_back-Within

  sending-Within : (uid : String) (p : ℕ) (r : Outcome x.Bytes) → Within 4 (sending x uid p r)
  unfolding sending publish ◌>>=◌ Within
  sending-Within uid p (err e) = tt
  sending-Within uid p (ok b) = λ r. after_publish-Within uid p _

  pub heartbeat-Within : (uid : String) (req : HeartbeatRequest) → Within 11 (heartbeat x uid req)
  unfolding heartbeat ◌>>=◌ ◌>>◌ Within
  heartbeat-Within uid req = λ t p.
      Within-bind 2 7 (Repository.set_cache x p) _ (set_cache-Within x p) λ r.
        Within-bind 1 6 (warned x "redis cache miss on heartbeat" uid r) _ (warned-Within _ uid r)
          λ u s.
            Within-bind 1 4 (new_envelope x heartbeat_topic (pos 1) _) (sending x uid p)
              (new_envelope-Within heartbeat_topic (pos 1) _) (sending-Within uid p)
