-- ===== src/Concurrent/System/Equivalence.antt =====
-- The requests and messages of Session/System are those that run with no one in between.
use playback_service.Prelude.{◌≡◌, List}
use playback_service.External.{External, Message}
use playback_service.World.{World, M}
use playback_service.Validator.{Field, Verdict}
use playback_service.Session.Consumer.{handle}
use playback_service.Session.Handler as Whole
use playback_service.Kafka.Consumer as WholeLoop
use playback_service.Concurrent.{run}
use playback_service.Concurrent.Consumer.{process}
use playback_service.Concurrent.System.{
  Endpoint, start, get_current, heartbeat, pause, resume, calls,
}
use playback_service.Concurrent.Alone.Consumer.{process-Runs}
use playback_service.Concurrent.Alone.Handler.{
  start_endpoint-Runs, get_current_endpoint-Runs, heartbeat_endpoint-Runs, pause_endpoint-Runs,
  resume_endpoint-Runs,
}

module _ (x : External) (struct : List Field → Verdict) where
  abbrev pub at_once : Endpoint → Whole.Ctx x struct → M x (Whole.Ctx x struct)
  at_once start = Whole.start x struct
  at_once get_current = Whole.get_current x struct
  at_once heartbeat = Whole.heartbeat x struct
  at_once pause = Whole.pause x struct
  at_once resume = Whole.resume x struct

  run-calls :
      (e : Endpoint) (ctx : Whole.Ctx x struct) (w : World x)
      → run (calls x struct e ctx) w ≡ at_once e ctx w
  unfolding calls
  run-calls start ctx = start_endpoint-Runs x struct ctx
  run-calls get_current ctx = get_current_endpoint-Runs x struct ctx
  run-calls heartbeat ctx = heartbeat_endpoint-Runs x struct ctx
  run-calls pause ctx = pause_endpoint-Runs x struct ctx
  run-calls resume ctx = resume_endpoint-Runs x struct ctx

-- A request or a message whose calls follow each other with no other request between them does what
-- the endpoint or the round of the consumer's loop does as a function of the world: the response and
-- the whole state are the same, for every endpoint, context, message and schedule of the goroutines.
pub run-at_once :
    {x : External} (struct : List Field → Verdict) (w : World x)
    → ((e : Endpoint) (ctx : Whole.Ctx x struct)
        → run (calls x struct e ctx) w ≡ at_once x struct e ctx w)
      × ((msg : Message x.Bytes) → run (process x msg) w ≡ WholeLoop.process x (handle x) msg w)
run-at_once {x} struct w = (λ e ctx. run-calls x struct e ctx w, λ msg. process-Runs x msg w)
