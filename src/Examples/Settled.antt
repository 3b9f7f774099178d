-- ===== src/Examples/Settled.antt =====
-- A read and the pause of another user after a `Start`, with the goroutine of the other user.
use playback_service.Prelude.{String, ◌≡◌, ◌≢◌, refl, eq_iff, none, []}
use playback_service.External.Memory.{memory, memory-IsReadable, memory-IsPostgres, memory-IsRedis}
use playback_service.World.{World}
use playback_service.World.Tasks.{advance}
use playback_service.Session.Repository.Answers.{seen}
use playback_service.Session.Service.{start, get_current, pause, resume, set_status}
use playback_service.Session.Service.Start.{started_session, allocated}
use playback_service.Session.Settled.Apart.{Apart, here, gets, pauses, turns}
use playback_service.Session.Settled.Written.{start_cached}
use playback_service.Session.Settled.Reads.{Same, start_read}
use playback_service.Session.Settled.Paused.{pause_cached, resume_cached, pause_read, resume_read}
use playback_service.Session.Isolation.{IsKeyed-IsStable}
use playback_service.Session.Isolation.Keyed.{IsKeyed}
use playback_service.Session.Stable.Service.{start-Keeps}
use playback_service.Session.Model.{decode_session, set_session, into_time}
use playback_service.Session.Repository.{unmarshal_session, get}
use playback_service.Json.{names_field, into_struct, into_text, into_int}
use playback_service.External.{ok}
use playback_service.Examples.Worlds.{healthy, start_bob}
use playback_service.Examples.Isolation.{healthy-IsKeyed}
use playback_service.Examples.Sessions.{service, start_ok}

pub bob_cached : start_cached memory "bob" start_bob healthy ≡ none
unfolding service start_cached allocated
bob_cached = refl

abbrev pub started_bob : World memory
started_bob = (start memory "bob" start_bob healthy).1

-- Ann's pause misses the cache and starts a goroutine, which marshals her session.
abbrev read_world : World memory
read_world = advance memory 0 (pause memory "ann" "tv" (get_current memory "bob" started_bob).1).1

pub ann-ne-bob : ◌≢◌ {A = String} "ann" "bob"
ann-ne-bob e = cc ((eq_iff "ann" "bob").1 e)

read_world-Apart : Apart "bob" started_bob read_world
read_world-Apart = turns 0 (pauses "ann" "tv" ann-ne-bob (gets "bob" here))

start_read_example :
    Same memory-IsRedis memory-IsReadable memory-IsPostgres
      (started_session memory "bob" start_bob healthy)
      (seen (get_current memory "bob" read_world))
start_read_example =
    start_read memory-IsRedis memory-IsReadable memory-IsPostgres "bob" start_bob healthy read_world
      0 healthy-IsKeyed refl start_ok bob_cached read_world-Apart

started_bob-IsKeyed : IsKeyed memory-IsRedis started_bob
started_bob-IsKeyed =
    start-Keeps (IsKeyed memory-IsRedis) (IsKeyed-IsStable memory-IsRedis memory-IsReadable) "bob"
      start_bob healthy healthy-IsKeyed

-- Opening this opens a run of the service that reads a session from the cache.
unfoldable decoded : Unit {0}
unfolding service unmarshal_session decode_session names_field into_struct set_session into_text
    into_int into_time
decoded = tt

hit_tasks : (get memory "bob" started_bob).1.tasks ≡ []
unfolding decoded
hit_tasks = refl

paused_ok : (pause memory "bob" "phone" started_bob).0 ≡ ok 1
unfolding decoded
paused_ok = refl

pause_cached_ok : pause_cached memory "bob" "phone" started_bob ≡ none
unfolding decoded set_status
pause_cached_ok = refl

pause_read_example :
    Same memory-IsRedis memory-IsReadable memory-IsPostgres
      ((pause memory "bob" "phone" started_bob).1.objects 1)
      (seen (
        get_current memory "bob"
          (get_current memory "ann" (pause memory "bob" "phone" started_bob).1).1))
pause_read_example =
    pause_read memory-IsRedis memory-IsReadable memory-IsPostgres "bob" "phone" started_bob
      (get_current memory "ann" (pause memory "bob" "phone" started_bob).1).1 1 started_bob-IsKeyed
      hit_tasks paused_ok pause_cached_ok (gets "ann" here)

resumed_ok : (resume memory "bob" "tv" started_bob).0 ≡ ok 1
unfolding decoded
resumed_ok = refl

resume_cached_ok : resume_cached memory "bob" "tv" started_bob ≡ none
unfolding decoded set_status
resume_cached_ok = refl

resume_read_example :
    Same memory-IsRedis memory-IsReadable memory-IsPostgres
      ((resume memory "bob" "tv" started_bob).1.objects 1)
      (seen (
        get_current memory "bob"
          (get_current memory "ann" (resume memory "bob" "tv" started_bob).1).1))
resume_read_example =
    resume_read memory-IsRedis memory-IsReadable memory-IsPostgres "bob" "tv" started_bob
      (get_current memory "ann" (resume memory "bob" "tv" started_bob).1).1 1 started_bob-IsKeyed
      hit_tasks resumed_ok resume_cached_ok (gets "ann" here)
