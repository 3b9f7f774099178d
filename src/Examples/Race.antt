-- ===== src/Examples/Race.antt =====
-- Two devices of one user start a session at the same time: the one writes PostgreSQL last, the other
-- Redis.
use mathlib.Core.Option
use playback_service.Prelude.{ℕ, get_elem?, String, ◌≡◌, refl, Option, some, [], ◌∷◌, pos}
use playback_service.Json.{
  Json, obj, member, str, int, end, names_field, into_struct, into_text, into_int,
}
use playback_service.Session.Model.{
  PlaybackSession, decode_session, set_session, into_time, decode_start, set_start,
}
use playback_service.External.{Outcome, ok, err}
use playback_service.External.Memory.{memory}
use playback_service.Validator.{bind_json}
use playback_service.Validator.Plain.{plain}
use playback_service.Handler.{RequestCtx, write_json}
use playback_service.Session.Service.{get_current}
use playback_service.Session.Repository.{unmarshal_session}
use playback_service.Session.Repository.Answers.{seen}
use playback_service.Concurrent.{ret, ◌>>=◌, ◌>>◌}
use playback_service.Concurrent.Repository
use playback_service.Concurrent.Service
use playback_service.Concurrent.Handler
use playback_service.Concurrent.System.{
  start, calls, Thread, request, System, move, move_thread, moved,
}
use playback_service.Examples.Worlds.{healthy}
use playback_service.Examples.Sessions.{service}
use playback_service.Examples.Endpoints.{request as http_request}
use playback_service.Examples.Overlap.{after_moves}

abbrev start_body : (track device : String) → Option Json
start_body track device = some (
    obj (
      member "track_id" (str track)
        (member "position_sec" (int (pos 0)) (member "device_id" (str device) end))))

abbrev from_device : (track device : String) → RequestCtx (Option Json)
from_device track device = http_request "bob" (start_body track device)

abbrev both_start : System memory plain
both_start = record {
  threads =
      request (from_device "t1" "phone") (calls memory plain start (from_device "t1" "phone"))
      ∷ request (from_device "t2" "tv") (calls memory plain start (from_device "t2" "tv"))
      ∷ [];
  world = healthy;
}

-- The phone is held up between its two writes.
abbrev raced : System memory plain
raced = after_moves (0 ∷ 0 ∷ 0 ∷ 0 ∷ 1 ∷ 1 ∷ 1 ∷ 1 ∷ 1 ∷ 1 ∷ 1 ∷ 0 ∷ 0 ∷ 0 ∷ []) both_start

abbrev track_of : Outcome PlaybackSession → String
track_of (ok s) = s.track_id
track_of (err e) = ""

abbrev status_of : Option (Thread memory plain) → ℕ
status_of (some (request ctx (ret after))) = after.response.status
status_of _ = 0

-- Opening this opens the runs of the two requests.
unfoldable opened : Unit {0}
unfolding service calls move move_thread moved Handler.start Handler.as_user Handler.as_body
    Service.start Service.saving Repository.upsert Repository.set_cache ◌>>=◌ ◌>>◌ bind_json plain
    decode_start set_start names_field into_struct into_text into_int write_json
opened = tt

phone_created : status_of (get_elem? raced.threads 0) ≡ 201
unfolding opened
phone_created = refl

tv_created : status_of (get_elem? raced.threads 1) ≡ 201
unfolding opened
tv_created = refl

stored_track :
    Option.map (λ (s : PlaybackSession). s.track_id) (raced.world.db.rows "bob") ≡ some "t2"
unfolding opened
stored_track = refl

read_track : track_of (seen (get_current memory "bob" raced.world)) ≡ "t1"
unfolding opened get_current unmarshal_session decode_session set_session into_time
read_track = refl
