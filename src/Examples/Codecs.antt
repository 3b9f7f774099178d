-- ===== src/Examples/Codecs.antt =====
-- The codecs, the repository and the consumer.
use mathlib.Core.List.{foldl}
use playback_service.Prelude.{true, false, ◌≡◌, refl, Option, some, [], ◌∷◌, List, pos, arith}
use playback_service.Apperror.{sentinel, context_canceled}
use playback_service.Json.{
  is_literal, scanned, scan, after_whole, is_digit, is_e, codes, Json, obj, str, member, end,
  into_struct, into_fields, names_field, into_text, into_int,
}
use playback_service.Session.Model.{encode_session, decode_session, set_session, into_time}
use playback_service.Session.Roundtrip.{decode-encode_session}
use playback_service.External.{Outcome, ok, err, Message}
use playback_service.External.Memory.{memory, ticks, memory-IsReadable, memory-IsPostgres}
use playback_service.World.Calls.{read_clock}
use playback_service.Kafka.Event.{new_envelope, parse_envelope, set_envelope}
use playback_service.Kafka.Event.Roundtrip.{parse-new_envelope}
use playback_service.Kafka.Consumer.{run}
use playback_service.Session.Consumer.{handle}
use playback_service.Session.Consumer.Delivery.{
  carried, deliver, commit, fetched, run-stores, Handled, handle-Persists,
}
use playback_service.Session.Consumer.Latest.{AllSaved, latest, run-latest}
use playback_service.Examples.Worlds.{ann, healthy}

-- Ann's session in JSON.
unfoldable pub ann_json : Json
unfolding ticks
ann_json = obj (
    member "user_id" (str "ann") (
      member "track_id" (str "t1") (
        member "position_sec" (Json.int (pos 42)) (
          member "status" (str "playing")
            (member "device_id" (str "phone") (member "updated_at" (str (ticks 3)) end))))))

ann_encoded : encode_session memory.format_time memory.parse_time ann ≡ some ann_json
unfolding encode_session ann_json
ann_encoded = refl

decode-encode_session_example :
    decode_session memory.format_time memory.parse_time ann_json ≡ some ann
decode-encode_session_example =
    decode-encode_session memory.format_time memory.parse_time ann ann_json
      memory-IsReadable.parse-format (ground arith) ann_encoded

-- The bytes of a heartbeat's envelope.
abbrev pub envelope : Option Json
envelope = some (
    obj (
      member "type" (str "playback.heartbeat") (
        member "version" (Json.int (pos 1))
          (member "timestamp" (str (ticks 7)) (member "payload" ann_json end)))))

enveloped :
    (new_envelope memory "playback.heartbeat" (pos 1) (some ann_json) healthy).0 ≡ ok envelope
unfolding new_envelope read_clock ticks
enveloped = refl

parse-new_envelope_example :
    parse_envelope memory envelope
    ≡ ok (record {
      type = "playback.heartbeat";
      version = pos 1;
      timestamp = 7;
      payload = some ann_json;
    })
unfolding ann_json
parse-new_envelope_example =
    parse-new_envelope memory "playback.heartbeat" (pos 1) ann_json healthy envelope
      memory-IsReadable refl (ground arith) enveloped

abbrev pub message : Message (Option Json)
message = record {
  topic = "playback.heartbeat";
  partition = 0;
  offset = 5;
  key = "ann";
  value = envelope;
}

handle-Persists_example :
    Handled memory-IsPostgres
      (carried memory message.value)
      healthy.db
      (handle memory message healthy)
handle-Persists_example = handle-Persists memory-IsPostgres message healthy

-- One message, then the shutdown.
abbrev answers : List (Outcome (Message (Option Json)))
answers = ok message ∷ err (sentinel context_canceled) ∷ []

run-stores_example :
    ((run memory "playback.heartbeat" "playback-session" (handle memory) answers healthy).1.db
      ≡ foldl (deliver memory) healthy.db (fetched memory answers))
    × ((run memory "playback.heartbeat" "playback-session" (handle memory) answers healthy).1.broker
        ≡ foldl (commit memory) healthy.broker (fetched memory answers))
run-stores_example = run-stores memory "playback.heartbeat" "playback-session" answers healthy

-- A payload with less than all members.
abbrev moved : Json
moved = obj (member "user_id" (str "ann") (member "device_id" (str "tv") end))

-- Two messages and a text that is no envelope, all of which the database takes.
abbrev more_answers : List (Outcome (Message (Option Json)))
more_answers =
    ok message
    ∷ ok (record message { offset = 6; value = some (str "noise") })
    ∷ ok (record message { offset = 7; value = some (obj (member "payload" moved end)) })
    ∷ []

more_saved : AllSaved memory healthy.db (fetched memory more_answers)
unfolding fetched parse_envelope decode_session ticks into_struct into_fields set_envelope
    set_session names_field into_text into_int into_time ann_json
more_saved = (refl, (refl, (refl, tt)))

run-latest_example :
    memory-IsPostgres.row "ann"
      (run memory "playback.heartbeat" "playback-session" (handle memory) more_answers healthy).1.db
    ≡ foldl
        (latest memory-IsPostgres "ann")
        (memory-IsPostgres.row "ann" healthy.db)
        (fetched memory more_answers)
run-latest_example =
    run-latest memory-IsPostgres "ann" "playback.heartbeat" "playback-session" more_answers healthy
      more_saved

literals :
    (is_literal "-1.5e+30" ≡ true)
    × (is_literal "0.25" ≡ true)
    × (is_literal "12" ≡ false)
    × (is_literal "01.5" ≡ false)
    × (is_literal "1." ≡ false)
unfolding is_literal scanned scan after_whole is_digit is_e codes
literals = (refl, refl, refl, refl, refl)
