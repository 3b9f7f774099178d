-- ===== src/Session/Consumer.antt =====
-- internal/session/consumer.go: the handler of the heartbeat messages.
pub mod Delivery
pub mod Latest
use playback_service.Prelude.{ℕ, String, ◌<>◌, Option, none, some, pos, [], ◌∷◌}
use playback_service.Apperror.{Fault, foreign, wrapped}
use playback_service.Json.{Json}
use playback_service.Session.Model.{PlaybackSession, decode_session}
use playback_service.Session.Repository.{upsert}
use playback_service.External.{External, Outcome, ok, err, Message}
use playback_service.World.{
  M, pure, ◌>>=◌, ◌>>◌, debug, error, text, number, fault, log_line, allocate,
}
use playback_service.Kafka.Event.{Envelope, parse_envelope}

module _ (x : External) where
  -- json.Unmarshal(env.Payload, &sess): the empty raw message is no JSON text.
  abbrev pub unmarshal_payload : Option Json → Outcome PlaybackSession
  unmarshal_payload none = err (foreign "unexpected end of JSON input")
  unmarshal_payload (some v) = elim (decode_session x.format_time x.parse_time v) [
    | none ↦ err (x.unmarshal_error (x.print v))
    | some s ↦ ok s
  ]

  abbrev pub persist_reply : PlaybackSession → Option Fault → M x (Option Fault)
  persist_reply s none = do
    log_line debug "heartbeat persisted"
        (("user_id", text s.user_id) ∷ ("position", number s.position) ∷ [])
    pure none
  persist_reply s (some e) = pure (some (wrapped ("persist heartbeat for user " <> s.user_id) e))

  abbrev pub persist : Message x.Bytes → Outcome PlaybackSession → M x (Option Fault)
  persist msg (err e) = do
    log_line error "failed to unmarshal heartbeat payload"
        (("offset", number (pos msg.offset)) ∷ ("error", fault e) ∷ [])
    pure none
  persist msg (ok s) = do p ← allocate s; reply ← upsert x p; persist_reply s reply

  abbrev pub handle_envelope : Message x.Bytes → Outcome Envelope → M x (Option Fault)
  handle_envelope msg (err e) = do
    log_line error "failed to parse heartbeat envelope"
        (("offset", number (pos msg.offset)) ∷ ("error", fault e) ∷ [])
    pure none
  handle_envelope msg (ok env) = persist msg (unmarshal_payload env.payload)

  unfoldable pub handle : Message x.Bytes → M x (Option Fault)
  handle msg = handle_envelope msg (parse_envelope x msg.value)
