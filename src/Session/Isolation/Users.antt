-- ===== src/Session/Isolation/Users.antt =====
-- The sessions that the service answers with are those of the user who asks.
use playback_service.Prelude.{ℕ, String, ◌≡◌, refl, ap, ◌∙◌, List}
use playback_service.Session.Model.{PlaybackSession, StartRequest}
use playback_service.External.{External, Outcome, ok, err}
use playback_service.External.Laws.{IsReadable, IsRedis, IsPostgres}
use playback_service.World.{World}
use playback_service.Validator.{Field, Verdict}
use playback_service.Session.Repository.{get}
use playback_service.Session.Repository.Answers.{seen, get-seen}
use playback_service.Session.Service.{start, get_current, pause, resume}
use playback_service.Session.Service.Start.{start-Persists}
use playback_service.Session.Service.Change.{Changed, pause-Changed, resume-Changed}
use playback_service.Session.System.{Reach, Reach-IsStable}
use playback_service.Session.Isolation.{IsKeyed-IsStable, get-user_id}
use playback_service.Session.Isolation.Keyed.{IsKeyed}

-- An answer with a session is an answer with a session of the user.
abbrev pub Own : String → Outcome PlaybackSession → Type 0
Own u (ok s) = s.user_id ≡ u
Own u (err e) = Unit

Own-of_session :
    (u : String) (r : Outcome PlaybackSession)
    → ((s : PlaybackSession) → r ≡ ok s → s.user_id ≡ u)
    → Own u r
Own-of_session u (ok s) own = own s refl
Own-of_session u (err e) own = tt

module _ {x : External} (u : String) where
  Own-of :
      (r : Outcome ℕ × World x)
      → ((p : ℕ) → r.0 ≡ ok p → (r.1.objects p).user_id ≡ u)
      → Own u (seen r)
  Own-of (ok p, w) own = own p refl
  Own-of (err e, w) own = tt

module _ {x : External} (redis : IsRedis x) (readable : IsReadable x) (pg : IsPostgres x)
    (u : String) (w : World x) (k : IsKeyed redis w) where
  pub Changed-user_id :
      (status device : String) (p : ℕ) (after : World x)
      → Changed pg status device u p w after
      → (after.objects p).user_id ≡ u
  Changed-user_id status device p after (s, found, object, saved) =
      ap (λ (q : PlaybackSession). q.user_id) object
      ∙ get-user_id redis pg u readable w s k (get-seen x u w ∙ found)

  answers-Own :
      (device : String) (req : StartRequest)
      → Own u (seen (start x u req w))
        × Own u (seen (get_current x u w))
        × Own u (seen (pause x u device w))
        × Own u (seen (resume x u device w))
  unfolding get_current
  answers-Own device req = (
    Own-of u (start x u req w)
        λ p e. ap (λ (q : PlaybackSession). q.user_id) (start-Persists pg u req w p e).0,
    Own-of_session u (seen (get x u w)) λ s e. get-user_id redis pg u readable w s k e,
    Own-of u (pause x u device w)
        λ p e. Changed-user_id _ device p (pause x u device w).1 (pause-Changed pg u device w p e),
    Own-of u (resume x u device w) λ p e.
        Changed-user_id _ device p (resume x u device w).1 (resume-Changed pg u device w p e),
  )

-- The keys of the cache stay in order: from a state in which every cached session is under the key of
-- its own user, and every goroutine that warms the cache is about to write such an entry, requests,
-- messages and goroutines lead in any order to such states only. This relies on the laws of Redis and
-- the text forms.
pub Reach-IsKeyed :
    {x : External} (redis : IsRedis x) (readable : IsReadable x) (struct : List Field → Verdict)
    (w v : World x)
    → IsKeyed redis w
    → Reach struct w v
    → IsKeyed redis v
Reach-IsKeyed redis readable struct w v k reached =
    Reach-IsStable struct (IsKeyed redis) (IsKeyed-IsStable redis readable) k reached

-- No user is answered with the session of another. In every state that requests, messages and
-- goroutines lead to from one with the keys of the cache in order, a session that `Start`,
-- `GetCurrent`, `Pause` or `Resume` returns is one of the user who asks. This relies on the laws of
-- Redis, PostgreSQL and the text forms.
pub Reach-Own :
    {x : External} (redis : IsRedis x) (readable : IsReadable x) (pg : IsPostgres x)
    (struct : List Field → Verdict) (w v : World x) (u device : String) (req : StartRequest)
    → IsKeyed redis w
    → Reach struct w v
    → Own u (seen (start x u req v))
      × Own u (seen (get_current x u v))
      × Own u (seen (pause x u device v))
      × Own u (seen (resume x u device v))
Reach-Own redis readable pg struct w v u device req k reached =
    answers-Own redis readable pg u v (Reach-IsKeyed redis readable struct w v k reached) device req
