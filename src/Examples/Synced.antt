-- ===== src/Examples/Synced.antt =====
-- A heartbeat that reaches Redis only.
use playback_service.Prelude.{◌≡◌, refl, ◌<>◌, Option, none, some, [], ◌∷◌, true, false, pos, arith}
use playback_service.Json.{Json, obj, str, member, end}
use playback_service.External.{ok}
use playback_service.External.Memory.{memory, ticks, memory-IsReadable, memory-IsRedis}
use playback_service.World.{World}
use playback_service.World.Tasks.{cache_key_prefix}
use playback_service.Session.Repository.Answers.{seen}
use playback_service.Session.Service.{heartbeat, get_current}
use playback_service.Session.Service.Heartbeat.{beat}
use playback_service.Session.Service.Synced.{before_cache, cache_reply, heartbeat_synced}
use playback_service.Examples.Worlds.{world_of, beat_ann}
use playback_service.Examples.Sessions.{service}

-- PostgreSQL and Kafka are down.
abbrev cut_off : World memory
cut_off = world_of true false false ([] ∷ (0 ∷ []) ∷ [])

cut_off_reply : cache_reply memory "ann" beat_ann cut_off ≡ none
unfolding service cache_reply before_cache
cut_off_reply = refl

abbrev cut_off_bytes : Option Json
cut_off_bytes = some (
    obj (
      member "user_id" (str "ann") (
        member "track_id" (str "t1") (
          member "position_sec" (Json.int (pos 47)) (
            member "status" (str "playing")
              (member "device_id" (str "phone") (member "updated_at" (str (ticks 7)) end)))))))

cut_off_hit :
    (memory.cache_get
      (cache_key_prefix <> "ann")
      (heartbeat memory "ann" beat_ann cut_off).1.cache).0
    ≡ ok cut_off_bytes
unfolding service
cut_off_hit = refl

heartbeat_synced_example :
    seen (get_current memory "ann" (heartbeat memory "ann" beat_ann cut_off).1)
    ≡ ok (beat memory "ann" beat_ann cut_off)
heartbeat_synced_example =
    heartbeat_synced memory-IsReadable memory-IsRedis "ann" beat_ann cut_off cut_off_bytes refl
      (ground arith) cut_off_reply cut_off_hit
