-- ===== src/Examples/Sessions.antt =====
-- The operations of the service.
use playback_service.Prelude.{◌≡◌, refl, String, ◌⊎◌, none, [], ◌∷◌, true, arith, false}
use playback_service.Apperror.{app, new_not_found, is}
use playback_service.Session.Model.{status_paused, status_playing}
use playback_service.External.{ok, err}
use playback_service.External.Memory.{
  memory, ticks, memory-IsReadable, memory-IsPostgres, memory-IsKafka,
}
use playback_service.World.{World}
use playback_service.World.Tasks.{yield, spawn, marshal_for_cache}
use playback_service.World.Calls.{
  read_clock, redis_get, redis_set, pool_query, pool_exec, writer_write, assign,
}
use playback_service.Session.Repository.{get, upsert, set_cache}
use playback_service.Session.Repository.Rows.{Persists}
use playback_service.Kafka.Event.{new_envelope}
use playback_service.Kafka.Producer.{publish}
use playback_service.Session.Service.{start, heartbeat, pause, resume}
use playback_service.Session.Service.Start.{started_session, start-Persists}
use playback_service.Session.Service.Change.{
  Changed, current, pause-Changed, resume-Changed, pause_missing,
}
use playback_service.Session.Service.Heartbeat.{beat, Queued, heartbeat_durable}
use playback_service.Examples.Worlds.{healthy, world_of, start_bob, beat_ann}

-- Opening this opens what a run of the service computes with.
unfoldable pub service : Unit {0}
unfolding start pause resume heartbeat get upsert set_cache new_envelope publish yield spawn
    marshal_for_cache read_clock redis_get redis_set pool_query pool_exec writer_write assign ticks
    is
service = tt

pub start_ok : (start memory "bob" start_bob healthy).0 ≡ ok 0
unfolding service
start_ok = refl

start-Persists_example :
    ((start memory "bob" start_bob healthy).1.objects 0
      ≡ started_session memory "bob" start_bob healthy)
    × Persists memory-IsPostgres
        (started_session memory "bob" start_bob healthy)
        healthy.db
        (start memory "bob" start_bob healthy).1.db
start-Persists_example = start-Persists memory-IsPostgres "bob" start_bob healthy 0 start_ok

-- The goroutine that warms the cache runs while `Pause` changes the session that both hold.
abbrev busy : World memory
busy = world_of true true true ([] ∷ [] ∷ (0 ∷ []) ∷ [] ∷ (0 ∷ []) ∷ [])

pause_ok : (pause memory "ann" "tv" busy).0 ≡ ok 0
unfolding service
pause_ok = refl

pause-Changed_example :
    Changed memory-IsPostgres status_paused "tv" "ann" 0 busy (pause memory "ann" "tv" busy).1
pause-Changed_example = pause-Changed memory-IsPostgres "ann" "tv" busy 0 pause_ok

resume_ok : (resume memory "ann" "tv" busy).0 ≡ ok 0
unfolding service
resume_ok = refl

resume-Changed_example :
    Changed memory-IsPostgres status_playing "tv" "ann" 0 busy (resume memory "ann" "tv" busy).1
resume-Changed_example = resume-Changed memory-IsPostgres "ann" "tv" busy 0 resume_ok

zed_missing : current memory "zed" healthy ≡ err (app (new_not_found "playback session not found"))
unfolding service
zed_missing = refl

pause_missing_example :
    ((pause memory "zed" "tv" healthy).0 ≡ err (app (new_not_found "playback session not found")))
    × ((u : String)
        → memory-IsPostgres.row u (pause memory "zed" "tv" healthy).1.db
          ≡ memory-IsPostgres.row u healthy.db)
    × ((pause memory "zed" "tv" healthy).1.broker ≡ healthy.broker)
pause_missing_example =
    pause_missing memory-IsPostgres "zed" "tv" healthy
      (app (new_not_found "playback session not found")) zed_missing

-- Kafka and Redis are down, and the database takes the heartbeat.
abbrev degraded : World memory
degraded = world_of false true false []

heartbeat_ok : (heartbeat memory "ann" beat_ann degraded).0 ≡ none
unfolding service
heartbeat_ok = refl

heartbeat_durable_example :
    Queued memory "ann" beat_ann degraded memory-IsKafka
      (heartbeat memory "ann" beat_ann degraded).1
    ⊎ Persists memory-IsPostgres
        (beat memory "ann" beat_ann degraded)
        degraded.db
        (heartbeat memory "ann" beat_ann degraded).1.db
heartbeat_durable_example =
    heartbeat_durable memory-IsReadable memory-IsPostgres memory-IsKafka "ann" beat_ann degraded
      (ground arith) heartbeat_ok
