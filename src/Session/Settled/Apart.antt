-- ===== src/Session/Settled/Apart.antt =====
-- Steps that leave a user's session alone.
use playback_service.Prelude.{ℕ, String, ◌≡◌, ◌≢◌, some, List}
use playback_service.Session.Model.{PlaybackSession, StartRequest, HeartbeatRequest}
use playback_service.External.{External, Message}
use playback_service.External.Laws.{IsReadable, IsRedis, IsPostgres}
use playback_service.World.{World}
use playback_service.World.Tasks.{advance}
use playback_service.Kafka.Consumer.{process}
use playback_service.Session.Consumer.{handle}
use playback_service.Session.Consumer.Delivery.{carried}
use playback_service.Session.Isolation.{IsKeyed-IsStable}
use playback_service.Session.Isolation.Keyed.{IsKeyed}
use playback_service.Session.Stable.Consumer.{handle-Keeps, process-Keeps}
use playback_service.Session.Stable.Service.{
  start-Keeps, get_current-Keeps, heartbeat-Keeps, pause-Keeps, resume-Keeps,
}
use playback_service.Session.Settled.Others.{start-Settled}
use playback_service.Session.Settled.Changes.{pause-Settled, resume-Settled}
use playback_service.Session.Settled.Heartbeats.{heartbeat-Settled}
use playback_service.Session.Settled.Messages.{process-Settled}
use playback_service.Session.Service.{start, get_current, heartbeat, pause, resume}
use playback_service.Session.Settled.{Settled, get-Settled, advance-Settled}

-- Steps in which the user changes nothing: reads of any users, changes by other users, messages that do
-- not carry a session of the user, and turns of the goroutines.
pub data Apart {x : External} (u : String) (w : World x) : World x → Type 0 where
  here : Apart u w w
  gets : {v : World x} (uid : String) → Apart u w v → Apart u w (get_current x uid v).1
  starts :
      {v : World x} (uid : String) (req : StartRequest)
      → uid ≢ u
      → Apart u w v
      → Apart u w (start x uid req v).1
  beats :
      {v : World x} (uid : String) (req : HeartbeatRequest)
      → uid ≢ u
      → Apart u w v
      → Apart u w (heartbeat x uid req v).1
  pauses :
      {v : World x} (uid device : String)
      → uid ≢ u
      → Apart u w v
      → Apart u w (pause x uid device v).1
  resumes :
      {v : World x} (uid device : String)
      → uid ≢ u
      → Apart u w v
      → Apart u w (resume x uid device v).1
  consumes :
      {v : World x} (msg : Message x.Bytes)
      → ((t : PlaybackSession) → carried x msg.value ≡ some t → t.user_id ≢ u)
      → Apart u w v
      → Apart u w (process x (handle x) msg v).1
  turns : {v : World x} (i : ℕ) → Apart u w v → Apart u w (advance x i v)
  schedules :
      {v : World x} (s : List (List ℕ)) → Apart u w v → Apart u w (record v { schedule = s })

module _ {x : External} (redis : IsRedis x) (readable : IsReadable x) (u : String) where
  pub Apart-IsKeyed : {w v : World x} → Apart u w v → IsKeyed redis w → IsKeyed redis v
  Apart-IsKeyed here k = k
  Apart-IsKeyed (gets {v} uid r) k =
      get_current-Keeps (IsKeyed redis) (IsKeyed-IsStable redis readable) uid v (Apart-IsKeyed r k)
  Apart-IsKeyed (starts {v} uid req other r) k =
      start-Keeps (IsKeyed redis) (IsKeyed-IsStable redis readable) uid req v (Apart-IsKeyed r k)
  Apart-IsKeyed (beats {v} uid req other r) k =
      heartbeat-Keeps (IsKeyed redis) (IsKeyed-IsStable redis readable) uid req v
        (Apart-IsKeyed r k)
  Apart-IsKeyed (pauses {v} uid device other r) k =
      pause-Keeps (IsKeyed redis) (IsKeyed-IsStable redis readable) uid device v (Apart-IsKeyed r k)
  Apart-IsKeyed (resumes {v} uid device other r) k =
      resume-Keeps (IsKeyed redis) (IsKeyed-IsStable redis readable) uid device v
        (Apart-IsKeyed r k)
  Apart-IsKeyed (consumes {v} msg other r) k =
      let stable = IsKeyed-IsStable redis readable in
      process-Keeps (IsKeyed redis) stable (handle x) (handle-Keeps (IsKeyed redis) stable) msg v
        (Apart-IsKeyed r k)
  Apart-IsKeyed (turns {v} i r) k =
      let stable = IsKeyed-IsStable redis readable in stable.turn i v (Apart-IsKeyed r k)
  Apart-IsKeyed (schedules {v} p r) k = Apart-IsKeyed r k

module _ {x : External} (redis : IsRedis x) (readable : IsReadable x) (pg : IsPostgres x)
    (s : PlaybackSession) where
  pub Apart-Settled :
      {w v : World x}
      → Apart s.user_id w v
      → IsKeyed redis w
      → Settled pg s redis w
      → Settled pg s redis v
  unfolding get_current
  Apart-Settled here o k = k
  Apart-Settled (gets {v} uid r) o k = get-Settled redis readable pg s uid v (Apart-Settled r o k)
  Apart-Settled (starts {v} uid req other r) o k =
      start-Settled redis readable pg s uid req v other (Apart-Settled r o k)
  Apart-Settled (beats {v} uid req other r) o k =
      heartbeat-Settled redis readable pg s uid req v other (Apart-Settled r o k)
  Apart-Settled (pauses {v} uid device other r) o k =
      pause-Settled redis readable pg s uid device v other
        (Apart-IsKeyed redis readable s.user_id r o) (Apart-Settled r o k)
  Apart-Settled (resumes {v} uid device other r) o k =
      resume-Settled redis readable pg s uid device v other
        (Apart-IsKeyed redis readable s.user_id r o) (Apart-Settled r o k)
  Apart-Settled (consumes {v} msg other r) o k =
      process-Settled redis readable pg s msg v other (Apart-Settled r o k)
  Apart-Settled (turns {v} i r) o k = advance-Settled redis readable pg s i v (Apart-Settled r o k)
  Apart-Settled (schedules {v} p r) o k =
      let i = Apart-Settled r o k in record { row = i.row; held = i.held }
