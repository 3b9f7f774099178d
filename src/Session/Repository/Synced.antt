-- ===== src/Session/Repository/Synced.antt =====
-- What another device reads from the cache after a write to it.
use playback_service.Prelude.{
  ℕ, ◌<>◌, ◌≡◌, sym, ap, ◌∙◌, true, Option, none, some, Option-cases, [], inl, inr, fits, arith,
}
use mathlib.Core.Path.{subst}
use playback_service.Apperror.{wrapped}
use playback_service.Json.{Json}
use playback_service.Session.Model.{PlaybackSession, encode_session, decode_session}
use playback_service.Session.Roundtrip.{encode_session-is_json, decode-encode_session}
use playback_service.External.{External, ok, err}
use playback_service.External.Laws.{IsReadable, IsRedis}
use playback_service.World.{World}
use playback_service.World.Tasks.{yield, cache_ttl, cache_key_prefix, marshal_for_cache}
use playback_service.World.Calls.{redis_set}
use playback_service.World.Quiet.{Quiet, yield-Quiet}
use playback_service.Session.Repository.{unmarshal_session, set_bytes, set_cache, get}
use playback_service.Session.Repository.Answers.{seen, usable, get_answer, get-seen}

module _ (x : External) where
  -- Bytes that decode to the session.
  pub unmarshal-print :
      (s : PlaybackSession) (v : Json)
      → IsReadable x
      → fits 64 s.position ≡ true
      → encode_session x.format_time x.parse_time s ≡ some v
      → unmarshal_session x (x.print v) ≡ some s
  unfolding unmarshal_session
  unmarshal-print s v readable small encoded =
      let decode : Json → Option PlaybackSession = decode_session x.format_time x.parse_time in
      ap (λ (o : Option Json). elim o [ none ↦ none | some u ↦ decode u ])
        (readable.parse-print v (encode_session-is_json x.format_time x.parse_time s v encoded))
      ∙ decode-encode_session x.format_time x.parse_time s v readable.parse-format small encoded

  -- A world in which no goroutine is left to run, with the session in the cache of its user.
  pub record Cached (redis : IsRedis x) (s : PlaybackSession) (w : World x) : Type 0 where
    pub tasks : w.tasks ≡ []
    pub bytes : x.Bytes
    pub entry : redis.entry (cache_key_prefix <> s.user_id) w.cache ≡ some bytes
    pub decoded : unmarshal_session x bytes ≡ some s

  pub Cached-Quiet :
      (redis : IsRedis x) {s : PlaybackSession} {v w : World x}
      → Quiet v w
      → Cached redis s v
      → Cached redis s w
  Cached-Quiet redis {s} q c = record {
    tasks = q.tasks;
    bytes = c.bytes;
    entry = ap (redis.entry (cache_key_prefix <> s.user_id)) q.cache ∙ c.entry;
    decoded = c.decoded;
  }

  redis_set-Cached :
      (redis : IsRedis x) (s : PlaybackSession) (b : x.Bytes) (w : World x)
      → w.tasks ≡ []
      → unmarshal_session x b ≡ some s
      → (redis_set x (cache_key_prefix <> s.user_id) b cache_ttl w).0 ≡ none
      → Cached redis s (redis_set x (cache_key_prefix <> s.user_id) b cache_ttl w).1
  unfolding redis_set
  redis_set-Cached redis s b w none_left decoded done = record {
    tasks = (yield-Quiet w none_left).tasks;
    bytes = b;
    entry =
        redis.set_done (cache_key_prefix <> s.user_id) b cache_ttl (yield x w).1.cache
          (ground arith) done;
    decoded = decoded;
  }

  pub marshal_for_cache-some :
      (s : PlaybackSession) (v : Json)
      → encode_session x.format_time x.parse_time s ≡ some v
      → marshal_for_cache x s ≡ ok (cache_key_prefix <> s.user_id, x.print v)
  unfolding marshal_for_cache
  marshal_for_cache-some s v encoded = rw (marshal_for_cache, encoded)

  pub marshal_for_cache-none :
      (s : PlaybackSession)
      → encode_session x.format_time x.parse_time s ≡ none
      → marshal_for_cache x s ≡ err (wrapped "marshal session for cache" x.marshal_error)
  unfolding marshal_for_cache
  marshal_for_cache-none s beyond = rw (marshal_for_cache, beyond)

  set_bytes-Cached :
      (redis : IsRedis x) (readable : IsReadable x) (s : PlaybackSession) (w : World x)
      → w.tasks ≡ []
      → fits 64 s.position ≡ true
      → (set_bytes x (marshal_for_cache x s) w).0 ≡ none
      → Cached redis s (set_bytes x (marshal_for_cache x s) w).1
  set_bytes-Cached redis readable s w none_left small done =
      elim (Option-cases (encode_session x.format_time x.parse_time s)) [
        | inl e ↦ cc (marshal_for_cache-none s e, done)
        | inr (v, e) ↦
            let read = unmarshal-print s v readable small e in
            subst (λ m. (set_bytes x m w).0 ≡ none → Cached redis s (set_bytes x m w).1)
              (sym (marshal_for_cache-some s v e))
              (redis_set-Cached redis s (x.print v) w none_left read) done
      ]

  pub set_cache-Cached :
      (redis : IsRedis x) (readable : IsReadable x) (p : ℕ) (w : World x)
      → w.tasks ≡ []
      → fits 64 (w.objects p).position ≡ true
      → (set_cache x p w).0 ≡ none
      → Cached redis (w.objects p) (set_cache x p w).1
  unfolding set_cache
  set_cache-Cached redis readable p w none_left small done =
      set_bytes-Cached redis readable (w.objects p) w none_left small done

  usable-entry :
      (redis : IsRedis x) (s : PlaybackSession) (w : World x) (b : x.Bytes)
      → Cached redis s w
      → (x.cache_get (cache_key_prefix <> s.user_id) w.cache).0 ≡ ok b
      → usable x (x.cache_get (cache_key_prefix <> s.user_id) w.cache).0 ≡ some s
  usable-entry redis s w b c hit =
      let found = redis.get_hit (cache_key_prefix <> s.user_id) w.cache b hit in
      let same : b ≡ c.bytes = cc (found, c.entry) in
      ap (usable x) hit ∙ ap (unmarshal_session x) same ∙ c.decoded

  pub get-Cached :
      (redis : IsRedis x) (s : PlaybackSession) (w : World x) (b : x.Bytes)
      → Cached redis s w
      → (x.cache_get (cache_key_prefix <> s.user_id) w.cache).0 ≡ ok b
      → seen (get x s.user_id w) ≡ ok s
  get-Cached redis s w b c hit =
      let row = (x.query_row s.user_id w.db).0 in
      get-seen x s.user_id w
      ∙ ap (λ k. get_answer x (usable x (x.cache_get (cache_key_prefix <> s.user_id) k).0) row)
          (yield-Quiet w c.tasks).cache
      ∙ ap (λ o. get_answer x o row) (usable-entry redis s w b c hit)
