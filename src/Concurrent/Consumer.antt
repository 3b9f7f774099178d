-- ===== src/Concurrent/Consumer.antt =====
-- internal/session/consumer.go and a round of the loop of internal/kafka/consumer.go, call by call.
use playback_service.Prelude.{◌<>◌, Option, none, some, pos, [], ◌∷◌}
use playback_service.Apperror.{Fault, wrapped}
use playback_service.Session.Model.{PlaybackSession}
use playback_service.Session.Consumer.{unmarshal_payload}
use playback_service.Kafka.Event.{Envelope, parse_envelope}
use playback_service.External.{External, Outcome, ok, err, Message}
use playback_service.World.{debug, error, text, number, fault, log_line, allocate}
use playback_service.World.Calls.{reader_commit}
use playback_service.Concurrent.{Prog, ret, does, ◌>>=◌, ◌>>◌}
use playback_service.Concurrent.Repository

module _ (x : External) where
  abbrev pub upsert_answered : PlaybackSession → Option Fault → Prog x (Option Fault)
  upsert_answered s none = do
    does (
        log_line debug "heartbeat persisted"
          (("user_id", text s.user_id) ∷ ("position", number s.position) ∷ []))
    ret none
  upsert_answered s (some e) = ret (some (wrapped ("persist heartbeat for user " <> s.user_id) e))

  abbrev pub with_session : Message x.Bytes → Outcome PlaybackSession → Prog x (Option Fault)
  with_session msg (err e) = do
    does (
        log_line error "failed to unmarshal heartbeat payload"
          (("offset", number (pos msg.offset)) ∷ ("error", fault e) ∷ []))
    ret none
  with_session msg (ok s) = do
    p ← does (allocate s)
    reply ← Repository.upsert x p
    upsert_answered s reply

  abbrev pub with_envelope : Message x.Bytes → Outcome Envelope → Prog x (Option Fault)
  with_envelope msg (err e) = do
    does (
        log_line error "failed to parse heartbeat envelope"
          (("offset", number (pos msg.offset)) ∷ ("error", fault e) ∷ []))
    ret none
  with_envelope msg (ok env) = with_session msg (unmarshal_payload x env.payload)

  unfoldable pub handle : Message x.Bytes → Prog x (Option Fault)
  handle msg = with_envelope msg (parse_envelope x msg.value)

  abbrev pub handler_answered : Message x.Bytes → Option Fault → Prog x (Unit {0})
  handler_answered msg none = ret tt
  handler_answered msg (some e) = does (
      log_line error "message processing failed" (
        ("topic", text msg.topic)
        ∷ ("partition", number (pos msg.partition))
        ∷ ("offset", number (pos msg.offset))
        ∷ ("error", fault e)
        ∷ []))

  abbrev pub commit_answered : Option Fault → Prog x (Unit {0})
  commit_answered none = ret tt
  commit_answered (some e) = does (log_line error "kafka commit error" (("error", fault e) ∷ []))

  unfoldable pub process : Message x.Bytes → Prog x (Unit {0})
  process msg = do
    failed ← handle msg
    handler_answered msg failed
    reply ← does (reader_commit x msg)
    commit_answered reply
