-- ===== src/Session/Repository/Decoded.antt =====
-- What the bytes decode to that `SetCache` sends.
use playback_service.Prelude.{
  String, ◌<>◌, ◌≡◌, ap, ◌∙◌, false, Bool-cases, Option, none, some, Option-cases, inl, inr, fits,
}
use playback_service.Json.{Json}
use playback_service.Session.Model.{PlaybackSession, encode_session, decode_session}
use playback_service.Session.Roundtrip.{encode_session-is_json, decode-encode_session_beyond}
use playback_service.External.{External, ok}
use playback_service.External.Laws.{IsReadable}
use playback_service.World.Tasks.{cache_key_prefix, marshal_for_cache}
use playback_service.Session.Repository.{unmarshal_session}
use playback_service.Session.Repository.Synced.{
  unmarshal-print, marshal_for_cache-some, marshal_for_cache-none,
}

-- They are under the key of the session's owner.
pub marshal_for_cache-key :
    (x : External) (s : PlaybackSession) (key : String) (b : x.Bytes)
    → marshal_for_cache x s ≡ ok (key, b)
    → cache_key_prefix <> s.user_id ≡ key
marshal_for_cache-key x s key b made =
    elim (Option-cases (encode_session x.format_time x.parse_time s)) [
      | inl e ↦ cc (marshal_for_cache-none x s e, made)
      | inr (v, e) ↦ cc (marshal_for_cache-some x s v e, made)
    ]

module _ {x : External} (readable : IsReadable x) where
  unmarshal-print_beyond :
      (s : PlaybackSession) (v : Json)
      → fits 64 s.position ≡ false
      → encode_session x.format_time x.parse_time s ≡ some v
      → unmarshal_session x (x.print v) ≡ none
  unfolding unmarshal_session
  unmarshal-print_beyond s v large encoded =
      let decode : Json → Option PlaybackSession = decode_session x.format_time x.parse_time in
      ap (λ (o : Option Json). elim o [ none ↦ none | some u ↦ decode u ])
        (readable.parse-print v (encode_session-is_json x.format_time x.parse_time s v encoded))
      ∙ decode-encode_session_beyond x.format_time x.parse_time s v large encoded

  print-decoded :
      (s t : PlaybackSession) (v : Json)
      → encode_session x.format_time x.parse_time s ≡ some v
      → unmarshal_session x (x.print v) ≡ some t
      → t ≡ s
  print-decoded s t v encoded decoded = elim (Bool-cases (fits 64 s.position)) [
    | inr large ↦ cc (unmarshal-print_beyond s v large encoded, decoded)
    | inl small ↦ cc (unmarshal-print x s v readable small encoded, decoded)
  ]

  -- They decode to nothing but the session.
  pub marshal_for_cache-decoded :
      (s t : PlaybackSession) (key : String) (b : x.Bytes)
      → marshal_for_cache x s ≡ ok (key, b)
      → unmarshal_session x b ≡ some t
      → t ≡ s
  marshal_for_cache-decoded s t key b made decoded =
      elim (Option-cases (encode_session x.format_time x.parse_time s)) [
        | inl e ↦ cc (marshal_for_cache-none x s e, made)
        | inr (v, e) ↦
            let same : x.print v ≡ b = cc (marshal_for_cache-some x s v e, made) in
            print-decoded s t v e (ap (unmarshal_session x) same ∙ decoded)
      ]
