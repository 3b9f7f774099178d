-- ===== src/Concurrent/Safe/Responses.antt =====
-- What the users are told while requests and messages run at the same time.
use playback_service.Prelude.{ℕ, String, ◌≡◌, some, List, [], get_elem?}
use playback_service.Apperror.{to_response}
use playback_service.External.{External}
use playback_service.External.Laws.{IsReadable, IsRedis, IsPostgres}
use playback_service.Validator.{Field, Verdict}
use playback_service.Handler.{RequestCtx}
use playback_service.Session.Handler.{Ctx}
use playback_service.Session.Isolation.Keyed.{IsKeyed}
use playback_service.Session.Isolation.Bodies.{Discloses}
use playback_service.Session.Isolation.Bodies as Bodies
use playback_service.Concurrent.{ret}
use playback_service.Concurrent.System.{
  start, get_current, heartbeat, pause, resume, request, System, Step, asks, fetches, moves, turns,
  Reach, here, next,
}
use playback_service.Concurrent.Safe.Keyed.{keyed_rules}
use playback_service.Concurrent.Safe.Handler.{Tells, a_session, an_error, nothing}
use playback_service.Concurrent.Safe.Threads.{Admitted, AllAdmitted, Reach-IsSound, IsSound-Tells}

module _ {x : External} (redis : IsRedis x) (readable : IsReadable x) (pg : IsPostgres x) where
  Tells-Discloses :
      {uid : String} (ctx after : RequestCtx x.Bytes)
      → Tells (keyed_rules redis readable pg) uid ctx after
      → Discloses x uid ctx after
  Tells-Discloses ctx after (a_session s v own fine encoded body) =
      Bodies.a_session s v own encoded body
  Tells-Discloses ctx after (an_error e excused body) = Bodies.an_error (to_response e) body
  Tells-Discloses ctx after (nothing may body) = Bodies.nothing body

  module _ (struct : List Field → Verdict) where
    admitted :
        {s t : System x struct} (step : Step x struct s t)
        → Admitted (keyed_rules redis readable pg) struct step
    unfolding keyed_rules
    admitted (asks start ctx s) = tt
    admitted (asks get_current ctx s) = tt
    admitted (asks heartbeat ctx s) = tt
    admitted (asks pause ctx s) = tt
    admitted (asks resume ctx s) = tt
    admitted (fetches msg s) = λ t e. tt
    admitted (moves i s) = tt
    admitted (turns i s) = tt

    all_admitted :
        {s t : System x struct} (r : Reach x struct s t)
        → AllAdmitted (keyed_rules redis readable pg) struct r
    all_admitted here = tt
    all_admitted (next r step) = (all_admitted r, admitted step)

-- No response tells of another user's session, however requests overlap. Let any number of requests
-- to the endpoints, messages of the consumer and goroutines that warm the cache run at the same time,
-- their calls in any order, from a state with the keys of the cache in order and no request in it.
-- Then the keys stay in order, and every request that has been answered has in its response the JSON
-- of a session of the user whom its header names, the JSON of an error, or the body that was there.
-- This relies on the laws of Redis, PostgreSQL and the text forms.
pub Overlap-Discloses :
    {x : External} (redis : IsRedis x) (readable : IsReadable x) (pg : IsPostgres x)
    (struct : List Field → Verdict) (s t : System x struct) (i : ℕ) (ctx after : Ctx x struct)
    → IsKeyed redis s.world
    → s.threads ≡ []
    → Reach x struct s t
    → get_elem? t.threads i ≡ some (request ctx (ret after))
    → IsKeyed redis t.world × Discloses x (ctx.header "X-User-ID") ctx after
unfolding keyed_rules
Overlap-Discloses redis readable pg struct s t i ctx after k empty reached answered =
    let rules = keyed_rules redis readable pg in
    let sound =
      Reach-IsSound rules struct reached (all_admitted redis readable pg struct reached)
        (k, rw empty tt) in
    (
      sound.0,
      Tells-Discloses redis readable pg ctx after
          (IsSound-Tells rules struct t i ctx after sound answered),
    )
