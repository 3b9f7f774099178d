-- ===== src/Examples/Shutdown.antt =====
-- A failing fetch, a message, and the end of the context.
use playback_service.Prelude.{◌≡◌, refl, true, Option, [], ◌∷◌, ◌++◌, List}
use playback_service.Apperror.{sentinel, foreign, wrapped, context_canceled, is}
use playback_service.Json.{Json}
use playback_service.External.{Outcome, Message, ok, err}
use playback_service.External.Memory.{memory}
use playback_service.Kafka.Consumer.{stopped, waiting, rounds, run}
use playback_service.Kafka.Consumer.Shutdown.{run_shutdown, run_survives}
use playback_service.Session.Consumer.{handle}
use playback_service.Examples.Worlds.{healthy}
use playback_service.Examples.Codecs.{message}

abbrev calm : List (Outcome (Message (Option Json)))
calm = err (foreign "EOF") ∷ ok message ∷ []

stop_is : is (wrapped "fetch" (sentinel context_canceled)) context_canceled ≡ true
unfolding is
stop_is = refl

run_shutdown_example :
    ((run memory "t" "g"
        (handle memory)
        (calm ++ (err (wrapped "fetch" (sentinel context_canceled)) ∷ ok message ∷ []))
        healthy).0
      ≡ stopped)
    × (run memory "t" "g"
          (handle memory)
          (calm ++ (err (wrapped "fetch" (sentinel context_canceled)) ∷ ok message ∷ []))
          healthy
        ≡ run memory "t" "g"
            (handle memory)
            (calm ++ (err (wrapped "fetch" (sentinel context_canceled)) ∷ []))
            healthy)
run_shutdown_example =
    run_shutdown memory "t" "g" (handle memory) calm (ok message ∷ [])
      (wrapped "fetch" (sentinel context_canceled)) healthy stop_is

run_survives_example :
    ((run memory "t" "g" (handle memory) calm healthy).0 ≡ waiting)
    × (run memory "t" "g" (handle memory) (calm ++ (ok message ∷ [])) healthy
        ≡ rounds memory
            (handle memory)
            (ok message ∷ [])
            (run memory "t" "g" (handle memory) calm healthy).1)
unfolding is
run_survives_example =
    run_survives memory "t" "g" (handle memory) calm (ok message ∷ []) healthy (refl, tt)
