-- ===== src/Concurrent/Safe/Reads.antt =====
-- What a user is told of a session while others read and write theirs at the same time.
use playback_service.Prelude.{ℕ, String, ◌≡◌, ◌≢◌, ◌∙◌, ap, some, none, List, [], get_elem?}
use playback_service.Apperror.{Error, http_status, to_response}
use playback_service.Json.{Json}
use playback_service.Session.Model.{PlaybackSession, StartRequest, encode_session}
use playback_service.External.{External, ok}
use playback_service.External.Laws.{IsReadable, IsRedis, IsPostgres}
use playback_service.World.{World}
use playback_service.Validator.{Field, Verdict}
use playback_service.Handler.{RequestCtx, json, encode_error}
use playback_service.Session.Handler.{Ctx}
use playback_service.Session.Service.{start as start_session}
use playback_service.Session.Service.Start.{started_session, start-Persists}
use playback_service.Session.Consumer.Delivery.{carried}
use playback_service.Session.Isolation.{IsKeyed-IsStable}
use playback_service.Session.Isolation.Keyed.{IsKeyed}
use playback_service.Session.Stable.Service.{start-Keeps}
use playback_service.Session.Settled.{IsVersion, Settled}
use playback_service.Session.Settled.Written.{start_cached, start-IsWritten, IsWritten-Settled}
use playback_service.Concurrent.{ret}
use playback_service.Concurrent.System.{
  start, get_current, heartbeat, pause, resume, request, System, Step, asks, fetches, moves, turns,
  Reach, here, next,
}
use playback_service.Concurrent.Safe.Others.{others_rules}
use playback_service.Concurrent.Safe.Handler.{Tells, a_session, an_error, nothing}
use playback_service.Concurrent.Safe.Threads.{Admitted, AllAdmitted, Reach-IsSound, IsSound-Tells}

module _ {x : External} (pg : IsPostgres x) (s : PlaybackSession) where
  -- The body is the session, to the precision of the columns, or an error other than that there is
  -- none.
  pub data Retells (after : RequestCtx x.Bytes) : Type 0 where
    a_version :
        (t : PlaybackSession) (v : Json)
        → IsVersion pg s t
        → encode_session x.format_time x.parse_time t ≡ some v
        → after.response.body ≡ json v
        → Retells after
    another_error :
        (e : Error)
        → http_status e ≢ 404
        → after.response.body ≡ json (encode_error (to_response e))
        → Retells after

module _ {x : External} (struct : List Field → Verdict) (u : String) where
  -- The user asks only to read, and no message carries a session of the user.
  abbrev pub ReadsOnly : {a b : System x struct} → Step x struct a b → Type 0
  ReadsOnly (asks get_current ctx s) = Unit
  ReadsOnly (asks start ctx s) = ctx.header "X-User-ID" ≢ u
  ReadsOnly (asks heartbeat ctx s) = ctx.header "X-User-ID" ≢ u
  ReadsOnly (asks pause ctx s) = ctx.header "X-User-ID" ≢ u
  ReadsOnly (asks resume ctx s) = ctx.header "X-User-ID" ≢ u
  ReadsOnly (fetches msg s) = (t : PlaybackSession) → carried x msg.value ≡ some t → t.user_id ≢ u
  ReadsOnly (moves i s) = Unit
  ReadsOnly (turns i s) = Unit

  abbrev pub AllReadsOnly : {a b : System x struct} → Reach x struct a b → Type 0
  AllReadsOnly here = Unit
  AllReadsOnly (next r step) = AllReadsOnly r × ReadsOnly step

module _ {x : External} (redis : IsRedis x) (readable : IsReadable x) (pg : IsPostgres x)
    (s : PlaybackSession) (struct : List Field → Verdict) where
  admitted :
      {a b : System x struct} (step : Step x struct a b)
      → ReadsOnly struct s.user_id step
      → Admitted (others_rules redis readable pg s) struct step
  unfolding others_rules
  admitted (asks get_current ctx a) only = tt
  admitted (asks start ctx a) only = only
  admitted (asks heartbeat ctx a) only = only
  admitted (asks pause ctx a) only = only
  admitted (asks resume ctx a) only = only
  admitted (fetches msg a) only = only
  admitted (moves i a) only = tt
  admitted (turns i a) only = tt

  all_admitted :
      {a b : System x struct} (r : Reach x struct a b)
      → AllReadsOnly struct s.user_id r
      → AllAdmitted (others_rules redis readable pg s) struct r
  all_admitted here only = tt
  all_admitted (next r step) only = (all_admitted r only.0, admitted step only.1)

  Tells-Retells :
      {uid : String} (ctx after : RequestCtx x.Bytes)
      → uid ≡ s.user_id
      → Tells (others_rules redis readable pg s) uid ctx after
      → Retells pg s after
  unfolding others_rules
  Tells-Retells ctx after same (a_session t v own fine encoded body) =
      a_version t v (fine (own ∙ same)) encoded body
  Tells-Retells ctx after same (an_error e excused body) = another_error e (excused same) body
  Tells-Retells ctx after same (nothing may body) = absurd (may same)

  Overlap-Settled :
      {a b : System x struct} (r : Reach x struct a b)
      → AllReadsOnly struct s.user_id r
      → IsKeyed redis a.world
      → Settled pg s redis a.world
      → a.threads ≡ []
      → Settled pg s redis b.world
        × ((i : ℕ) (ctx after : Ctx x struct)
            → ctx.header "X-User-ID" ≡ s.user_id
            → get_elem? b.threads i ≡ some (request ctx (ret after))
            → Retells pg s after)
  unfolding others_rules
  Overlap-Settled {b} r only keyed settled empty =
      let rules = others_rules redis readable pg s in
      let sound =
        Reach-IsSound rules struct r (all_admitted r only) ((keyed, settled), rw empty tt) in
      (
        sound.0.1,
        λ i ctx after same found.
            Tells-Retells ctx after same (IsSound-Tells rules struct b i ctx after sound found),
      )

-- A user reads what the user started, also among overlapping requests. After a `Start` that returns a
-- session, from a state with the keys of the cache in order and no goroutine in the background, where
-- Redis took its write, let any number of requests, messages and goroutines run at the same time,
-- their calls in any order, with no request in the state at first, the user asking only to read and no
-- message with a session of the user. Then each request of the user that has been answered has in its
-- response the JSON of the session of the `Start`, to the precision of the columns, or the JSON of an
-- error, but not of one that says with 404 that there is no session. This relies on the laws of Redis,
-- PostgreSQL and the text forms.
pub overlap_start_read :
    {x : External} (redis : IsRedis x) (readable : IsReadable x) (pg : IsPostgres x)
    (struct : List Field → Verdict) (uid : String) (req : StartRequest) (w : World x) (p : ℕ)
    (a b : System x struct) (r : Reach x struct a b)
    → IsKeyed redis w
    → w.tasks ≡ []
    → (start_session x uid req w).0 ≡ ok p
    → start_cached x uid req w ≡ none
    → a ≡ record { threads = []; world = (start_session x uid req w).1 }
    → AllReadsOnly struct uid r
    → (i : ℕ) (ctx after : Ctx x struct) → ctx.header "X-User-ID" ≡ uid
    → get_elem? b.threads i ≡ some (request ctx (ret after))
    → Retells pg (started_session x uid req w) after
overlap_start_read {x} redis readable pg struct uid req w p a b r keyed none_left done cached begins
      only i ctx after asks_it answered =
    let s = started_session x uid req w in
    let started = (start_session x uid req w).1 in
    let written = start-IsWritten x uid req w redis p none_left done cached in
    let row = (start-Persists pg uid req w p done).1.0 in
    let settled = IsWritten-Settled redis readable pg s started written row in
    let in_order = start-Keeps (IsKeyed redis) (IsKeyed-IsStable redis readable) uid req w keyed in
    (Overlap-Settled redis readable pg s struct r only (rw begins in_order) (rw begins settled)
        (ap (λ (t : System x struct). t.threads) begins)).1
      i ctx after asks_it answered
