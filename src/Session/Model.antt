-- ===== src/Session/Model.antt =====
-- internal/session/model.go: the session and the request bodies, with their JSON forms.
use playback_service.Prelude.{ℕ, ◌*◌, String, Option, none, some, ℤ, pos, if◌then◌else◌}
use playback_service.Json.{
  Json, null, int, str, obj, end, member, names_field, into_text, into_int, into_struct,
}
use mathlib.Core.Option

-- An instant: nanoseconds since the start of the year 0, UTC.
abbrev pub Time : Type 0
Time = ℕ

-- Go's zero time, the start of the year 1.
abbrev pub zero_time : Time
zero_time = 366 * (86400 * 1000000000)

abbrev pub status_playing : String
status_playing = "playing"

abbrev pub status_paused : String
status_paused = "paused"

pub record PlaybackSession : Type 0 where
  pub user_id : String
  pub track_id : String
  pub position : ℤ
  pub status : String
  pub device_id : String
  pub updated_at : Time

pub record StartRequest : Type 0 where
  pub track_id : String
  pub device_id : String
  pub position : ℤ

pub record HeartbeatRequest : Type 0 where
  pub track_id : String
  pub position : ℤ
  pub device_id : String

pub record PauseResumeRequest : Type 0 where
  pub device_id : String

-- `var s PlaybackSession`, and the zero values of the requests.
abbrev pub zero_session : PlaybackSession
zero_session = record {
  user_id = "";
  track_id = "";
  position = pos 0;
  status = "";
  device_id = "";
  updated_at = zero_time;
}

abbrev pub zero_start : StartRequest
zero_start = record { track_id = ""; device_id = ""; position = pos 0 }

abbrev pub zero_heartbeat : HeartbeatRequest
zero_heartbeat = record { track_id = ""; position = pos 0; device_id = "" }

abbrev pub zero_pause_resume : PauseResumeRequest
zero_pause_resume = record { device_id = "" }

-- The RFC 3339 text of an instant, of Go's package `time`, is a parameter: `format` fails for a year
-- beyond 9999, `parse` on a text that is no RFC 3339 time.
module _ (format : Time → Option String) (parse : String → Option Time) where
  -- json.Marshal of a session.
  unfoldable pub encode_session : PlaybackSession → Option Json
  encode_session s = elim (format s.updated_at) [
    | none ↦ none
    | some stamp ↦ some (
        obj (
          member "user_id" (str s.user_id) (
            member "track_id" (str s.track_id) (
              member "position_sec" (int s.position) (
                member "status" (str s.status)
                  (member "device_id" (str s.device_id) (member "updated_at" (str stamp) end)))))))
  ]

  unfoldable pub into_time : Json → Time → Option Time
  into_time null old = some old
  into_time (str s) old = parse s
  into_time _ old = none

  -- One member of the object into the session.
  unfoldable pub set_session : String → Json → PlaybackSession → Option PlaybackSession
  unfolding into_text into_int into_time
  set_session key v s =
      if names_field "user_id" key
      then Option.map (λ x. record s { user_id = x }) (into_text v s.user_id)
      else if names_field "track_id" key
      then Option.map (λ x. record s { track_id = x }) (into_text v s.track_id)
      else if names_field "position_sec" key
      then Option.map (λ x. record s { position = x }) (into_int v s.position)
      else if names_field "status" key
      then Option.map (λ x. record s { status = x }) (into_text v s.status)
      else if names_field "device_id" key
      then Option.map (λ x. record s { device_id = x }) (into_text v s.device_id)
      else if names_field "updated_at" key
      then Option.map (λ x. record s { updated_at = x }) (into_time v s.updated_at)
      else some s

  -- json.Unmarshal into `var s PlaybackSession`.
  unfoldable pub decode_session : Json → Option PlaybackSession
  unfolding into_struct set_session
  decode_session v = into_struct set_session v zero_session

unfoldable pub set_start : String → Json → StartRequest → Option StartRequest
unfolding into_text into_int
set_start key v r =
    if names_field "track_id" key
    then Option.map (λ x. record r { track_id = x }) (into_text v r.track_id)
    else if names_field "device_id" key
    then Option.map (λ x. record r { device_id = x }) (into_text v r.device_id)
    else if names_field "position_sec" key
    then Option.map (λ x. record r { position = x }) (into_int v r.position)
    else some r

unfoldable pub set_heartbeat : String → Json → HeartbeatRequest → Option HeartbeatRequest
unfolding into_text into_int
set_heartbeat key v r =
    if names_field "track_id" key
    then Option.map (λ x. record r { track_id = x }) (into_text v r.track_id)
    else if names_field "position_sec" key
    then Option.map (λ x. record r { position = x }) (into_int v r.position)
    else if names_field "device_id" key
    then Option.map (λ x. record r { device_id = x }) (into_text v r.device_id)
    else some r

unfoldable pub set_pause_resume : String → Json → PauseResumeRequest → Option PauseResumeRequest
unfolding into_text
set_pause_resume key v r =
    if names_field "device_id" key
    then Option.map (λ x. record r { device_id = x }) (into_text v r.device_id)
    else some r

unfoldable pub decode_start : Json → Option StartRequest
decode_start v = into_struct set_start v zero_start

unfoldable pub decode_heartbeat : Json → Option HeartbeatRequest
decode_heartbeat v = into_struct set_heartbeat v zero_heartbeat

unfoldable pub decode_pause_resume : Json → Option PauseResumeRequest
decode_pause_resume v = into_struct set_pause_resume v zero_pause_resume
