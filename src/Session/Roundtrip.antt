-- ===== src/Session/Roundtrip.antt =====
-- The JSON form of a session: what `Unmarshal` reads back.
use playback_service.Prelude.{
  String, ◌≡◌, inl, inr, true, false, Option, none, some, Option-cases, fits, arith,
}
use playback_service.Json.{Json, is_json, int, str, obj, end, member, names_field}
use playback_service.Session.Model.{Time, PlaybackSession, encode_session, decode_session}

module _ (format : Time → Option String) (parse : String → Option Time) where
  -- The object that `Marshal` writes.
  session_object : PlaybackSession → String → Json
  session_object s stamp = obj (
      member "user_id" (str s.user_id) (
        member "track_id" (str s.track_id) (
          member "position_sec" (int s.position) (
            member "status" (str s.status)
              (member "device_id" (str s.device_id) (member "updated_at" (str stamp) end))))))

  decode-session_object :
      (s : PlaybackSession) (stamp : String)
      → parse stamp ≡ some s.updated_at
      → fits 64 s.position ≡ true
      → decode_session format parse (session_object s stamp) ≡ some s
  unfolding session_object decode_session names_field
  decode-session_object s stamp read small = ground arith

  pub encode_session-is_json :
      (s : PlaybackSession) (v : Json) → encode_session format parse s ≡ some v → is_json v ≡ true
  unfolding encode_session session_object
  encode_session-is_json s v encoded = elim (Option-cases (format s.updated_at)) [
    | inl beyond ↦ cc (rw (encode_session, beyond) at encoded)
    | inr (stamp, f) ↦
        let object : v ≡ session_object s stamp = cc (rw (encode_session, f) at encoded) in
        rw object
  ]

  -- A session that is written as JSON is read back unchanged, where the text of a time is read back
  -- as that time and the position is a Go integer.
  pub decode-encode_session :
      (s : PlaybackSession) (v : Json)
      → ((t : Time) (text : String) → format t ≡ some text → parse text ≡ some t)
      → fits 64 s.position ≡ true
      → encode_session format parse s ≡ some v
      → decode_session format parse v ≡ some s
  unfolding encode_session session_object
  decode-encode_session s v law small encoded = elim (Option-cases (format s.updated_at)) [
    | inl e ↦ cc
    | inr (stamp, e) ↦
        let same : v ≡ session_object s stamp = cc in
        rw same (decode-session_object s stamp (law s.updated_at stamp e) small)
  ]

  -- A position that is no Go integer is refused.
  pub decode-encode_session_beyond :
      (s : PlaybackSession) (v : Json)
      → fits 64 s.position ≡ false
      → encode_session format parse s ≡ some v
      → decode_session format parse v ≡ none
  unfolding encode_session session_object decode_session names_field
  decode-encode_session_beyond s v large encoded = elim (Option-cases (format s.updated_at)) [
    | inl e ↦ cc
    | inr (stamp, e) ↦ let same : v ≡ session_object s stamp = cc in rw same (ground arith)
  ]
