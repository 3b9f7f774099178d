-- ===== src/Session/System.antt =====
-- The service as a transition system: requests to the endpoints, messages to the consumer, and turns
-- of the goroutines that warm the cache, in any order and number.
use playback_service.Prelude.{ℕ, List}
use playback_service.External.{External, Message}
use playback_service.World.{World}
use playback_service.World.Tasks.{advance}
use playback_service.World.Stable.{IsStable}
use playback_service.Kafka.Consumer.{process}
use playback_service.Validator.{Field, Verdict}
use playback_service.Session.Consumer.{handle}
use playback_service.Session.Handler.{Ctx, start, get_current, heartbeat, pause, resume}
use playback_service.Session.Stable.Consumer.{handle-Keeps, process-Keeps}
use playback_service.Session.Stable.Handler.{
  start_endpoint-Keeps, get_current_endpoint-Keeps, heartbeat_endpoint-Keeps, pause_endpoint-Keeps,
  resume_endpoint-Keeps,
}

module _ {x : External} (struct : List Field → Verdict) where
  pub data Step : World x → World x → Type 0 where
    starts : (ctx : Ctx x struct) (w : World x) → Step w (start x struct ctx w).1
    gets : (ctx : Ctx x struct) (w : World x) → Step w (get_current x struct ctx w).1
    beats : (ctx : Ctx x struct) (w : World x) → Step w (heartbeat x struct ctx w).1
    pauses : (ctx : Ctx x struct) (w : World x) → Step w (pause x struct ctx w).1
    resumes : (ctx : Ctx x struct) (w : World x) → Step w (resume x struct ctx w).1
    consumes : (msg : Message x.Bytes) (w : World x) → Step w (process x (handle x) msg w).1
    turns : (i : ℕ) (w : World x) → Step w (advance x i w)
    -- The scheduler decides which goroutines run inside the next steps.
    schedules : (s : List (List ℕ)) (w : World x) → Step w (record w { schedule = s })

  pub data Reach (w : World x) : World x → Type 0 where
    here : Reach w w
    next : {u v : World x} → Reach w u → Step u v → Reach w v

  module _ (I : World x → Type 0) (stable : IsStable I) where
    Step-IsStable : {w v : World x} → Step w v → I w → I v
    Step-IsStable (starts ctx w) i = start_endpoint-Keeps struct I stable ctx w i
    Step-IsStable (gets ctx w) i = get_current_endpoint-Keeps struct I stable ctx w i
    Step-IsStable (beats ctx w) i = heartbeat_endpoint-Keeps struct I stable ctx w i
    Step-IsStable (pauses ctx w) i = pause_endpoint-Keeps struct I stable ctx w i
    Step-IsStable (resumes ctx w) i = resume_endpoint-Keeps struct I stable ctx w i
    Step-IsStable (consumes msg w) i =
        process-Keeps I stable (handle x) (handle-Keeps I stable) msg w i
    Step-IsStable (turns k w) i = stable.turn k w i
    Step-IsStable (schedules s w) i = stable.scheduled s w i

    -- What every primitive step keeps holds in every state that the system reaches.
    pub Reach-IsStable : {w v : World x} → I w → Reach w v → I v
    Reach-IsStable i here = i
    Reach-IsStable i (next r s) = Step-IsStable s (Reach-IsStable i r)
