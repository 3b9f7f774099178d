-- ===== src/Session/Service.antt =====
-- internal/session/service.go: the operations on the session of a user.
pub mod Saves
pub mod Faults
pub mod Absent
pub mod Start
pub mod Change
pub mod Publish
pub mod Heartbeat
pub mod Synced
use playback_service.Prelude.{ℕ, String, Option, none, some, pos, [], ◌∷◌}
use playback_service.Apperror.{Fault, app, new_internal}
use playback_service.Session.Model.{
  PlaybackSession, StartRequest, HeartbeatRequest, Time, status_playing, status_paused,
  encode_session,
}
use playback_service.Session.Repository
use playback_service.External.{External, Outcome, ok, err}
use playback_service.World.{
  M, pure, ◌>>=◌, ◌>>◌, warn, error, text, fault, log_line, allocate, deref,
}
use playback_service.World.Calls.{read_clock, assign}
use playback_service.Kafka.Event.{new_envelope}
use playback_service.Kafka.Producer.{publish}

abbrev pub heartbeat_topic : String
heartbeat_topic = "playback.heartbeat"

abbrev pub start_session : String → StartRequest → Time → PlaybackSession
start_session uid req t = record {
  user_id = uid;
  track_id = req.track_id;
  position = req.position;
  status = status_playing;
  device_id = req.device_id;
  updated_at = t;
}

abbrev pub heartbeat_session : String → HeartbeatRequest → Time → PlaybackSession
heartbeat_session uid req t = record {
  user_id = uid;
  track_id = req.track_id;
  position = req.position;
  status = status_playing;
  device_id = req.device_id;
  updated_at = t;
}

module _ (x : External) where
  -- A failing `SetCache` is logged and has no other consequence.
  abbrev pub warn_cache : String → String → Option Fault → M x (Unit {0})
  warn_cache message uid none = pure tt
  warn_cache message uid (some e) =
      log_line warn message (("user_id", text uid) ∷ ("error", fault e) ∷ [])

  -- The part of `Start`, `Pause` and `Resume` from `Upsert` on.
  abbrev pub cache_saved : String → String → ℕ → Option Fault → String → M x (Outcome ℕ)
  cache_saved warned uid p (some e) failed = pure (err (app (new_internal failed e)))
  cache_saved warned uid p none failed = do
    cached ← Repository.set_cache x p
    warn_cache warned uid cached
    pure (ok p)

  unfoldable pub save : (failed warned : String) → String → ℕ → M x (Outcome ℕ)
  save failed warned uid p = do saved ← Repository.upsert x p; cache_saved warned uid p saved failed

  unfoldable pub start : String → StartRequest → M x (Outcome ℕ)
  unfolding save
  start uid req = do
    t ← read_clock x
    p ← allocate (start_session uid req t)
    save "failed to start session" "failed to cache new session" uid p

  unfoldable pub get_current : String → M x (Outcome ℕ)
  get_current uid = Repository.get x uid

  -- The write of the heartbeat that Kafka did not take.
  abbrev pub persisted : Option Fault → M x (Option Fault)
  persisted none = pure none
  persisted (some e) = pure (some (app (new_internal "failed to persist heartbeat" e)))

  abbrev pub published : String → ℕ → Option Fault → M x (Option Fault)
  published uid p none = pure none
  published uid p (some e) = do
    log_line error "kafka publish failed, writing heartbeat directly to db"
        (("user_id", text uid) ∷ ("error", fault e) ∷ [])
    saved ← Repository.upsert x p
    persisted saved

  unfoldable pub send_heartbeat : String → ℕ → Outcome x.Bytes → M x (Option Fault)
  send_heartbeat uid p (err e) =
      pure (some (app (new_internal "failed to encode heartbeat event" e)))
  send_heartbeat uid p (ok payload) = do
    sent ← publish x heartbeat_topic uid payload
    published uid p sent

  unfoldable pub heartbeat : String → HeartbeatRequest → M x (Option Fault)
  unfolding send_heartbeat
  heartbeat uid req = do
    t ← read_clock x
    p ← allocate (heartbeat_session uid req t)
    cached ← Repository.set_cache x p
    warn_cache "redis cache miss on heartbeat" uid cached
    s ← deref p
    payload ← new_envelope x heartbeat_topic (pos 1) (encode_session x.format_time x.parse_time s)
    send_heartbeat uid p payload

  -- The assignments of `Pause` and `Resume` to the session that `Get` returned, one by one.
  unfoldable pub set_status : (status device_id : String) → ℕ → M x (Unit {0})
  set_status status device p = do
    assign x p (λ s. record s { status = status })
    assign x p (λ s. record s { device_id = device })
    t ← read_clock x
    assign x p (λ s. record s { updated_at = t })

  unfoldable pub change_status :
      (status failed warned : String) → String → String → Outcome ℕ → M x (Outcome ℕ)
  unfolding set_status save
  change_status status failed warned uid device (err e) = pure (err e)
  change_status status failed warned uid device (ok p) = do
    set_status status device p
    save failed warned uid p

  unfoldable pub pause : String → String → M x (Outcome ℕ)
  unfolding change_status
  pause uid device = do
    found ← Repository.get x uid
    change_status status_paused "failed to pause session" "failed to cache paused session" uid
        device found

  unfoldable pub resume : String → String → M x (Outcome ℕ)
  unfolding change_status
  resume uid device = do
    found ← Repository.get x uid
    change_status status_playing "failed to resume session" "failed to cache resumed session" uid
        device found
