-- ===== src/Kafka/Event/Roundtrip.antt =====
-- The envelope of an event is read back as it was written.
use playback_service.Prelude.{String, ◌≡◌, inl, inr, true, some, Option-cases, ℤ, fits, arith}
use playback_service.Json.{Json, is_json, int, str, obj, end, member, into_struct, names_field}
use playback_service.Session.Model.{Time}
use playback_service.External.{External, ok}
use playback_service.External.Laws.{IsReadable}
use playback_service.World.{World}
use playback_service.World.Calls.{read_clock}
use playback_service.Kafka.Event.{
  Envelope, zero_envelope, raw, envelope_bytes, encode_envelope, set_envelope, new_envelope,
  parse_envelope,
}

module _ (x : External) where
  -- The object that `Marshal` writes.
  envelope_object : Envelope → String → Json
  envelope_object e stamp = obj (
      member "type" (str e.type) (
        member "version" (int e.version)
          (member "timestamp" (str stamp) (member "payload" (raw e.payload) end))))

  decode-envelope_object :
      (event_type : String) (version : ℤ) (t : Time) (payload : Json) (stamp : String)
      → x.parse_time stamp ≡ some t
      → fits 64 version ≡ true
      → let e : Envelope = record {
        type = event_type;
        version = version;
        timestamp = t;
        payload = some payload;
      } in
        into_struct (set_envelope x) (envelope_object e stamp) zero_envelope ≡ some e
  unfolding envelope_object into_struct set_envelope names_field
  decode-envelope_object event_type version t payload stamp read small = ground arith

  encoded_envelope :
      (e : Envelope) (b : x.Bytes)
      → envelope_bytes x (encode_envelope x e) ≡ ok b
      → (stamp : String) × (x.format_time e.timestamp ≡ some stamp)
        × (b ≡ x.print (envelope_object e stamp))
  unfolding encode_envelope envelope_object
  encoded_envelope e b h = elim (Option-cases (x.format_time e.timestamp)) [
    | inl beyond ↦ absurd (ground arith)
    | inr (stamp, f) ↦ (stamp, f, ground arith)
  ]

  parse_envelope_of :
      (b : x.Bytes) (v : Json) (e : Envelope)
      → x.parse b ≡ some v
      → into_struct (set_envelope x) v zero_envelope ≡ some e
      → parse_envelope x b ≡ ok e
  unfolding parse_envelope
  parse_envelope_of b v e parsed decoded = ground arith

  envelope_object-is_json :
      (e : Envelope) (stamp : String)
      → is_json (raw e.payload) ≡ true
      → is_json (envelope_object e stamp) ≡ true
  unfolding envelope_object
  envelope_object-is_json e stamp plain = rw plain

  parse_envelope-print :
      (event_type : String) (version : ℤ) (t : Time) (payload : Json) (stamp : String)
      → IsReadable x
      → is_json payload ≡ true
      → x.parse_time stamp ≡ some t
      → fits 64 version ≡ true
      → let e : Envelope = record {
        type = event_type;
        version = version;
        timestamp = t;
        payload = some payload;
      } in
        parse_envelope x (x.print (envelope_object e stamp)) ≡ ok e
  parse_envelope-print event_type version t payload stamp readable plain read small =
      parse_envelope_of _ _ _ (readable.parse-print _ (envelope_object-is_json _ stamp plain))
        (decode-envelope_object event_type version t payload stamp read small)

  -- What `NewEnvelope` writes, `ParseEnvelope` reads back: the type, the version, the time of the
  -- clock and the payload. The payload is JSON, the version is a Go integer, and the texts of JSON and of times are
  -- read back.
  pub parse-new_envelope :
      (event_type : String) (version : ℤ) (payload : Json) (w : World x) (b : x.Bytes)
      → IsReadable x
      → is_json payload ≡ true
      → fits 64 version ≡ true
      → (new_envelope x event_type version (some payload) w).0 ≡ ok b
      → parse_envelope x b
        ≡ ok (record {
          type = event_type;
          version = version;
          timestamp = (x.now w.clock).0;
          payload = some payload;
        })
  unfolding new_envelope read_clock
  parse-new_envelope event_type version payload w b readable plain small made =
      let t = (x.now w.clock).0 in
      let (stamp, f, written) =
        encoded_envelope
          (record { type = event_type; version = version; timestamp = t; payload = some payload }) b
          made in
      rw written (
        parse_envelope-print event_type version t payload stamp readable plain
          (readable.parse-format t stamp f) small)
