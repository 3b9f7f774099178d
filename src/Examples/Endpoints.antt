-- ===== src/Examples/Endpoints.antt =====
-- The endpoints.
use playback_service.Prelude.{
  String, ◌≡◌, ◌≢◌, ◌⊎◌, refl, Option, none, some, pos, false, is_negative, ◌==◌, if◌then◌else◌,
}
use playback_service.Json.{Json, Members, obj, str, member, end, names_field, into_struct}
use playback_service.Session.Model.{
  HeartbeatRequest, decode_start, decode_heartbeat, decode_pause_resume, set_heartbeat,
}
use playback_service.Session.Requests.Fields.{decode_heartbeat-fields}
use playback_service.External.Memory.{memory, memory-IsReadable, memory-IsPostgres, memory-IsKafka}
use playback_service.Handler.{RequestCtx, empty}
use playback_service.Validator.{bound, bind_json}
use playback_service.Validator.Plain.{plain, plain-IsValidator}
use playback_service.Session.Repository.Rows.{Persists}
use playback_service.Session.Service
use playback_service.Session.Service.Absent.{Missing}
use playback_service.Session.Service.Heartbeat.{beat, Queued}
use playback_service.Session.Handler.{
  start_fields, heartbeat_fields, pause_resume_fields, start, get_current, heartbeat, pause, resume,
  with_user, with_body,
}
use playback_service.Session.Handler.Statuses.{status_of}
use playback_service.Session.Handler.Decisions.{Decided, Delivers, Done, endpoint_statuses}
use playback_service.Session.Handler.Acknowledged.{heartbeat_acknowledged}
use playback_service.Examples.Worlds.{healthy}
use playback_service.Examples.Sessions.{service}

abbrev pub request : String → Option Json → RequestCtx (Option Json)
request uid body = record {
  method = "PUT";
  path = "/api/v1/sessions/heartbeat";
  header = λ k. if k == "X-User-ID" then uid else "";
  post_body = body;
  user_value = λ k. none;
  response = record { status = 200; content_type = ""; body = empty; headers = λ k. "" };
}

abbrev pub beat_body : Option Json
beat_body = some (
    obj (
      member "track_id" (str "t1")
        (member "position_sec" (Json.int (pos 47)) (member "DEVICE_ID" (str "phone") end))))

beat_204 : (heartbeat memory plain (request "ann" beat_body) healthy).0.response.status ≡ 204
unfolding service heartbeat with_user with_body bind_json plain decode_heartbeat names_field
    into_struct set_heartbeat
beat_204 = refl

heartbeat_acknowledged_example :
    (req : HeartbeatRequest) × (bind_json memory plain decode_heartbeat heartbeat_fields beat_body
      ≡ bound req)
    × ((req.track_id ≢ "") × (req.device_id ≢ "") × (is_negative req.position ≡ false))
    × (Queued memory "ann" req healthy memory-IsKafka
          (heartbeat memory plain (request "ann" beat_body) healthy).1
        ⊎ Persists memory-IsPostgres
            (beat memory "ann" req healthy)
            healthy.db
            (heartbeat memory plain (request "ann" beat_body) healthy).1.db)
heartbeat_acknowledged_example =
    heartbeat_acknowledged memory-IsReadable memory-IsPostgres memory-IsKafka plain
      plain-IsValidator (request "ann" beat_body) healthy beat_204

endpoint_statuses_example :
    let ctx : RequestCtx (Option Json) = request "ann" beat_body in
    let code = status_of memory plain in
    let changing = bind_json memory plain decode_pause_resume pause_resume_fields beat_body in
    Decided memory plain "ann"
      (bind_json memory plain decode_start start_fields beat_body)
      ⊥
      (λ req. Delivers memory plain (Service.start memory "ann" req healthy))
      201
      (code (start memory plain ctx healthy))
    × Decided memory plain {A = Unit {0}} "ann"
        (bound tt)
        (Missing memory "ann" healthy)
        (λ _. Delivers memory plain (Service.get_current memory "ann" healthy))
        200
        (code (get_current memory plain ctx healthy))
    × Decided memory plain "ann"
        (bind_json memory plain decode_heartbeat heartbeat_fields beat_body)
        ⊥
        (λ req. Done memory plain (Service.heartbeat memory "ann" req healthy))
        204
        (code (heartbeat memory plain ctx healthy))
    × Decided memory plain "ann" changing
        (Missing memory "ann" healthy)
        (λ req. Delivers memory plain (Service.pause memory "ann" req.device_id healthy))
        200
        (code (pause memory plain ctx healthy))
    × Decided memory plain "ann" changing
        (Missing memory "ann" healthy)
        (λ req. Delivers memory plain (Service.resume memory "ann" req.device_id healthy))
        200
        (code (resume memory plain ctx healthy))
endpoint_statuses_example = endpoint_statuses memory plain (request "ann" beat_body) healthy

-- A member that is not of the struct, a null that changes nothing, and a repeated member.
abbrev repeated_members : Members
repeated_members =
    (member "other" (str "x") (
      member "position_sec" (Json.int (pos 9223372036854775807))
        (member "Position_Sec" Json.null (member "track_id" (str "t1") end))))

decode_heartbeat-fields_example :
    decode_heartbeat (obj repeated_members)
    ≡ some (record { track_id = "t1"; position = pos 9223372036854775807; device_id = "" })
unfolding names_field
decode_heartbeat-fields_example = decode_heartbeat-fields repeated_members
