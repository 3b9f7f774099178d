-- ===== src/Concurrent/Service.antt =====
-- internal/session/service.go and the Publish of internal/kafka/producer.go, call by call.
use playback_service.Prelude.{ℕ, String, Option, none, some, pos, ℤ, [], ◌∷◌}
use playback_service.Apperror.{Fault, app, wrapped, new_internal}
use playback_service.Json.{Json}
use playback_service.Session.Model.{
  StartRequest, HeartbeatRequest, status_playing, status_paused, encode_session,
}
use playback_service.Session.Service.{heartbeat_topic, start_session, heartbeat_session}
use playback_service.Kafka.Event.{encode_envelope, envelope_bytes}
use playback_service.Kafka.Producer.{publish_reply}
use playback_service.External.{External, Outcome, ok, err}
use playback_service.World.{warn, error, text, fault, log_line, allocate, deref}
use playback_service.World.Calls.{read_clock, assign, writer_write}
use playback_service.Concurrent.{Prog, ret, does, ◌>>=◌, ◌>>◌}
use playback_service.Concurrent.Repository

module _ (x : External) where
  abbrev pub warned : String → String → Option Fault → Prog x (Unit {0})
  warned message uid none = ret tt
  warned message uid (some e) =
      does (log_line warn message (("user_id", text uid) ∷ ("error", fault e) ∷ []))

  abbrev pub after_upsert : String → String → ℕ → Option Fault → String → Prog x (Outcome ℕ)
  after_upsert warning uid p (some e) failed = ret (err (app (new_internal failed e)))
  after_upsert warning uid p none failed = do
    cached ← Repository.set_cache x p
    warned warning uid cached
    ret (ok p)

  unfoldable pub saving : (failed warning : String) → String → ℕ → Prog x (Outcome ℕ)
  saving failed warning uid p = do
    saved ← Repository.upsert x p
    after_upsert warning uid p saved failed

  unfoldable pub start : String → StartRequest → Prog x (Outcome ℕ)
  start uid req = do
    t ← does (read_clock x)
    p ← does (allocate (start_session uid req t))
    saving "failed to start session" "failed to cache new session" uid p

  unfoldable pub get_current : String → Prog x (Outcome ℕ)
  get_current uid = Repository.get x uid

  unfoldable pub publish : String → String → x.Bytes → Prog x (Option Fault)
  publish topic key value = do
    reply ← does (writer_write x topic key value)
    ret (publish_reply x topic reply)

  unfoldable pub new_envelope : String → ℤ → Option Json → Prog x (Outcome x.Bytes)
  new_envelope event_type version none = ret (err (wrapped "marshal event payload" x.marshal_error))
  new_envelope event_type version (some payload) = do
    t ← does (read_clock x)
    ret (
        envelope_bytes x (
          encode_envelope x (record {
            type = event_type;
            version = version;
            timestamp = t;
            payload = some payload;
          })))

  abbrev pub fallen_back : Option Fault → Prog x (Option Fault)
  fallen_back none = ret none
  fallen_back (some e) = ret (some (app (new_internal "failed to persist heartbeat" e)))

  abbrev pub after_publish : String → ℕ → Option Fault → Prog x (Option Fault)
  after_publish uid p none = ret none
  after_publish uid p (some e) = do
    does (
        log_line error "kafka publish failed, writing heartbeat directly to db"
          (("user_id", text uid) ∷ ("error", fault e) ∷ []))
    saved ← Repository.upsert x p
    fallen_back saved

  unfoldable pub sending : String → ℕ → Outcome x.Bytes → Prog x (Option Fault)
  sending uid p (err e) = ret (some (app (new_internal "failed to encode heartbeat event" e)))
  sending uid p (ok payload) = do
    sent ← publish heartbeat_topic uid payload
    after_publish uid p sent

  unfoldable pub heartbeat : String → HeartbeatRequest → Prog x (Option Fault)
  heartbeat uid req = do
    t ← does (read_clock x)
    p ← does (allocate (heartbeat_session uid req t))
    cached ← Repository.set_cache x p
    warned "redis cache miss on heartbeat" uid cached
    s ← does (deref p)
    payload ← new_envelope heartbeat_topic (pos 1) (encode_session x.format_time x.parse_time s)
    sending uid p payload

  unfoldable pub assigning : (status device_id : String) → ℕ → Prog x (Unit {0})
  assigning status device p = do
    does (assign x p (λ s. record s { status = status }))
    does (assign x p (λ s. record s { device_id = device }))
    t ← does (read_clock x)
    does (assign x p (λ s. record s { updated_at = t }))

  unfoldable pub changing :
      (status failed warning : String) → String → String → Outcome ℕ → Prog x (Outcome ℕ)
  changing status failed warning uid device (err e) = ret (err e)
  changing status failed warning uid device (ok p) = do
    assigning status device p
    saving failed warning uid p

  unfoldable pub pause : String → String → Prog x (Outcome ℕ)
  pause uid device = do
    found ← Repository.get x uid
    changing status_paused "failed to pause session" "failed to cache paused session" uid device
        found

  unfoldable pub resume : String → String → Prog x (Outcome ℕ)
  resume uid device = do
    found ← Repository.get x uid
    changing status_playing "failed to resume session" "failed to cache resumed session" uid device
        found
