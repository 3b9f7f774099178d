-- ===== src/Examples/Isolation.antt =====
-- Requests of two users, one after the other, with a goroutine of the first still to run.
use playback_service.Prelude.{Option, none}
use playback_service.External.Memory.{
  memory, memory-IsReadable, memory-IsPostgres, memory-IsRedis, memory-entry,
}
use playback_service.World.{World}
use playback_service.Validator.Plain.{plain}
use playback_service.Handler.{RequestCtx}
use playback_service.Json.{Json}
use playback_service.Session.Isolation.Bodies.{Discloses, Reach-Discloses}
use playback_service.Session.Handler.{start, get_current, heartbeat, pause, resume}
use playback_service.Session.Repository.Answers.{seen}
use playback_service.Session.Service
use playback_service.Session.System.{Reach, here, next, gets, beats, turns}
use playback_service.Session.Isolation.Keyed.{IsKeyed}
use playback_service.Session.Isolation.Users.{Own, Reach-IsKeyed, Reach-Own}
use playback_service.World.Tasks.{advance}
use playback_service.Examples.Worlds.{healthy, start_bob}
use playback_service.Examples.Endpoints.{request, beat_body}

pub healthy-IsKeyed : IsKeyed memory-IsRedis healthy
healthy-IsKeyed = (λ key b held. cc (memory-entry key healthy.cache, held), tt)

abbrev asked : World memory
asked = (get_current memory plain (request "ann" none) healthy).1

abbrev beaten : World memory
beaten = (heartbeat memory plain (request "bob" beat_body) asked).1

abbrev warmed : World memory
warmed = advance memory 0 beaten

warmed-Reach : Reach plain healthy warmed
warmed-Reach =
    next
      (next (next here (gets (request "ann" none) healthy)) (beats (request "bob" beat_body) asked))
      (turns 0 beaten)

Reach-IsKeyed_example : IsKeyed memory-IsRedis warmed
Reach-IsKeyed_example =
    Reach-IsKeyed memory-IsRedis memory-IsReadable plain healthy warmed healthy-IsKeyed warmed-Reach

Reach-Own_example :
    Own "ann" (seen (Service.start memory "ann" start_bob warmed))
    × Own "ann" (seen (Service.get_current memory "ann" warmed))
    × Own "ann" (seen (Service.pause memory "ann" "tv" warmed))
    × Own "ann" (seen (Service.resume memory "ann" "tv" warmed))
Reach-Own_example =
    Reach-Own memory-IsRedis memory-IsReadable memory-IsPostgres plain healthy warmed "ann" "tv"
      start_bob healthy-IsKeyed warmed-Reach

abbrev bob_asks : RequestCtx (Option Json)
bob_asks = request "bob" none

Reach-Discloses_example :
    Discloses memory "bob" bob_asks (start memory plain bob_asks warmed).0
    × Discloses memory "bob" bob_asks (get_current memory plain bob_asks warmed).0
    × Discloses memory "bob" bob_asks (heartbeat memory plain bob_asks warmed).0
    × Discloses memory "bob" bob_asks (pause memory plain bob_asks warmed).0
    × Discloses memory "bob" bob_asks (resume memory plain bob_asks warmed).0
Reach-Discloses_example =
    Reach-Discloses memory-IsRedis memory-IsReadable memory-IsPostgres plain healthy warmed bob_asks
      healthy-IsKeyed warmed-Reach
