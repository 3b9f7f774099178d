-- ===== src/Session/Settled/Reads.antt =====
-- What reads find after a `Start`.
use playback_service.Prelude.{
  ℕ, String, ◌<>◌, ◌≡◌, refl, Bool-cases, none, some, Option-cases, inl, inr, [],
}
use playback_service.Apperror.{Fault, app, new_internal, is, no_rows}
use playback_service.Session.Model.{PlaybackSession, StartRequest}
use playback_service.External.{External, Outcome, ok, err}
use playback_service.External.Laws.{IsReadable, IsRedis, IsPostgres}
use playback_service.World.{World}
use playback_service.World.Tasks.{yield, cache_key_prefix}
use playback_service.World.Held.{yield-Held}
use playback_service.Session.Isolation.{IsKeyed-IsStable}
use playback_service.Session.Isolation.Keyed.{IsKeyed}
use playback_service.Session.Stable.Service.{start-Keeps}
use playback_service.Session.Repository.{get}
use playback_service.Session.Repository.Answers.{seen, usable, usable-some, row_answer, get-seen}
use playback_service.Session.Service.{start, get_current}
use playback_service.Session.Service.Start.{started_session, start-Persists}
use playback_service.Session.Settled.{IsVersion, IsEntry, IsPointer, made, Settled}
use playback_service.Session.Settled.Apart.{Apart, Apart-Settled}
use playback_service.Session.Settled.Written.{start_cached, start-IsWritten, IsWritten-Settled}

module _ {x : External} (redis : IsRedis x) (readable : IsReadable x) (pg : IsPostgres x)
    (s : PlaybackSession) where
  -- An answer with the session, or with the error of a query that failed.
  abbrev pub Same : Outcome PlaybackSession → Type 0
  Same (ok t) = IsVersion pg s t
  Same (err e) = (cause : Fault) × (e ≡ app (new_internal "db query failed" cause))

  row_answer-Same :
      (w : World x) (r : Outcome PlaybackSession)
      → pg.row s.user_id w.db ≡ some (pg.stored s)
      → (x.query_row s.user_id w.db).0 ≡ r
      → Same (row_answer x r)
  row_answer-Same w (ok t) row replied =
      let found = pg.query_found s.user_id w.db t replied in inr (cc (found, row))
  row_answer-Same w (err e) row replied = elim (Bool-cases (is e no_rows)) [
    | inl missing ↦ cc (pg.query_missing s.user_id w.db e replied missing, row)
    | inr failed ↦ rw failed (e, refl)
  ]

  pub get-Same : (w : World x) → Settled pg s redis w → Same (seen (get x s.user_id w))
  get-Same w k =
      let key = cache_key_prefix <> s.user_id in
      let c = (yield x w).1.cache in
      let r = (x.cache_get key c).0 in
      let row = (x.query_row s.user_id w.db).0 in
      let held = yield-Held redis (IsEntry pg s) (IsPointer pg s) (made pg s readable) w k.held in
      let answered = get-seen x s.user_id w in
      elim (Option-cases (usable x r)) [
        | inl miss ↦ rw (answered, miss) (row_answer-Same w row k.row refl)
        | inr (t, hit) ↦
            let (b, replied, decoded) = usable-some x r t hit in
            rw (answered, hit) (held.0 key b (redis.get_hit key c b replied) t refl decoded)
      ]

-- A user reads what the user started. After a `Start` that returns a session, from a state with the
-- keys of the cache in order and no goroutine in the background, where Redis took its write, let
-- anything happen in any order but a change by this user and a message with a session of the user:
-- reads, requests and messages of others, goroutines that warm the cache. Then `GetCurrent` returns
-- the session of the `Start`, to the precision of the columns, or says that the query failed, but
-- never that there is no session: also where Redis has lost it or does not answer. This relies on the
-- laws of Redis, PostgreSQL and the text forms.
pub start_read :
    {x : External} (redis : IsRedis x) (readable : IsReadable x) (pg : IsPostgres x) (uid : String)
    (req : StartRequest) (w v : World x) (p : ℕ)
    → IsKeyed redis w
    → w.tasks ≡ []
    → (start x uid req w).0 ≡ ok p
    → start_cached x uid req w ≡ none
    → Apart uid (start x uid req w).1 v
    → Same redis readable pg (started_session x uid req w) (seen (get_current x uid v))
unfolding get_current
start_read {x} redis readable pg uid req w v p keyed none_left done cached apart =
    let s = started_session x uid req w in
    let started = (start x uid req w).1 in
    let written = start-IsWritten x uid req w redis p none_left done cached in
    let row = (start-Persists pg uid req w p done).1.0 in
    let settled = IsWritten-Settled redis readable pg s started written row in
    let in_order = start-Keeps (IsKeyed redis) (IsKeyed-IsStable redis readable) uid req w keyed in
    get-Same redis readable pg s v (Apart-Settled redis readable pg s apart in_order settled)
