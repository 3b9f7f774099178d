-- ===== src/Kafka/Event.antt =====
-- internal/kafka/event.go: the envelope of an event.
pub mod Roundtrip
use mathlib.Core.Option
use playback_service.Prelude.{String, Option, none, some, ℤ, pos, if◌then◌else◌}
use playback_service.Apperror.{wrapped}
use playback_service.Json.{
  Json, null, int, str, obj, end, member, names_field, into_text, into_int, into_struct,
}
use playback_service.Session.Model.{Time, zero_time, into_time}
use playback_service.External.{External, Outcome, ok, err, unmarshal}
use playback_service.World.{M, pure, ◌>>=◌}
use playback_service.World.Calls.{read_clock}

-- `payload` is the value of the raw message, and `none` for the empty one.
pub record Envelope : Type 0 where
  pub type : String
  pub version : ℤ
  pub timestamp : Time
  pub payload : Option Json

abbrev pub zero_envelope : Envelope
zero_envelope = record { type = ""; version = pos 0; timestamp = zero_time; payload = none }

-- A nil raw message is written as null.
abbrev pub raw : Option Json → Json
raw none = null
raw (some v) = v

module _ (x : External) where
  -- json.Marshal of an envelope.
  unfoldable pub encode_envelope : Envelope → Option Json
  encode_envelope e = elim (x.format_time e.timestamp) [
    | none ↦ none
    | some stamp ↦ some (
        obj (
          member "type" (str e.type) (
            member "version" (int e.version)
              (member "timestamp" (str stamp) (member "payload" (raw e.payload) end)))))
  ]

  unfoldable pub set_envelope : String → Json → Envelope → Option Envelope
  unfolding into_text into_int into_time
  set_envelope key v e =
      if names_field "type" key
      then Option.map (λ a. record e { type = a }) (into_text v e.type)
      else if names_field "version" key
      then Option.map (λ a. record e { version = a }) (into_int v e.version)
      else if names_field "timestamp" key
      then Option.map (λ a. record e { timestamp = a })
          (into_time x.format_time x.parse_time v e.timestamp)
      else if names_field "payload" key
      then some (record e { payload = some v })
      else some e

  abbrev pub envelope_bytes : Option Json → Outcome x.Bytes
  envelope_bytes none = err (wrapped "marshal envelope" x.marshal_error)
  envelope_bytes (some v) = ok (x.print v)

  -- `payload` is the result of `json.Marshal(payload)`.
  unfoldable pub new_envelope : String → ℤ → Option Json → M x (Outcome x.Bytes)
  unfolding encode_envelope
  new_envelope event_type version none =
      pure (err (wrapped "marshal event payload" x.marshal_error))
  new_envelope event_type version (some payload) = do
    t ← read_clock x
    pure (
        envelope_bytes (
          encode_envelope (record {
            type = event_type;
            version = version;
            timestamp = t;
            payload = some payload;
          })))

  unfoldable pub parse_envelope : x.Bytes → Outcome Envelope
  parse_envelope bytes = elim (unmarshal x (λ v. into_struct set_envelope v zero_envelope) bytes) [
    | none ↦ err (wrapped "unmarshal envelope" (x.unmarshal_error bytes))
    | some e ↦ ok e
  ]
