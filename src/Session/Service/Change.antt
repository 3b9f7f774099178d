-- ===== src/Session/Service/Change.antt =====
-- What `Pause` and `Resume` answer and leave in PostgreSQL.
use playback_service.Prelude.{ℕ, String, ◌<>◌, ◌≡◌, ◌∙◌, sym, ap, refl, inl, inr}
use playback_service.Apperror.{Fault}
use playback_service.Session.Model.{PlaybackSession, Time, status_paused, status_playing}
use playback_service.External.{External, Outcome, ok, err}
use playback_service.External.Laws.{IsPostgres}
use playback_service.World.{World}
use playback_service.World.Tasks.{yield, cache_key_prefix}
use playback_service.Session.Repository.{get}
use playback_service.Session.Repository.Answers.{seen, usable, get_answer, get-seen}
use playback_service.Session.Repository.Reads.{Reads, get-Reads}
use playback_service.Session.Repository.Rows.{Persists, exec-Persists}
use playback_service.Session.Service.{set_status, change_status, pause, resume}
use playback_service.Session.Service.Saves.{
  save_answer, save_answer-eq-ok, save_lem, save-Writes, set_status-StatusSet,
}

-- The session of a user as `Get` finds it.
abbrev pub current : (x : External) → String → World x → Outcome PlaybackSession
current x uid w =
    get_answer x (usable x (x.cache_get (cache_key_prefix <> uid) (yield x w).1.cache).0)
      (x.query_row uid w.db).0

-- A session after `Pause` or `Resume`.
abbrev pub with_status : (status device : String) → Time → PlaybackSession → PlaybackSession
with_status status device t s = record s { status = status; device_id = device; updated_at = t }

-- What a successful change has read, returned and stored: the session that `Get` finds, with the
-- status, the device and the time of the clock.
abbrev pub Changed :
    {x : External} (pg : IsPostgres x) (status device uid : String) (p : ℕ) (before after : World x)
    → Type 0
Changed {x} pg status device uid p before after =
    (s : PlaybackSession) × (current x uid before ≡ ok s)
    × (after.objects p ≡ with_status status device (x.now before.clock).0 s)
    × Persists pg (with_status status device (x.now before.clock).0 s) before.db after.db

module _ {x : External} (pg : IsPostgres x) where
  -- `Get` changes no row.
  pub Reads-row :
      {uid : String} {before after : World x} (v : String)
      → Reads uid before after
      → pg.row v after.db ≡ pg.row v before.db
  Reads-row {uid} {before} v r = elim r.db [
    | inl same ↦ ap (pg.row v) same
    | inr read ↦ ap (pg.row v) read ∙ pg.query_keeps uid v before.db
  ]

module _ (x : External) (status failed warned uid device : String) where
  module _ (p : ℕ) (w : World x) where
    pub target : PlaybackSession
    target = with_status status device (x.now w.clock).0 (w.objects p)

    between : World x
    between = (set_status x status device p w).1

    pub change_status_lem :
        (change_status x status failed warned uid device (ok p) w).0
        ≡ save_answer failed p (x.exec_upsert target w.db).0
    unfolding change_status target between
    change_status_lem =
        let b = set_status-StatusSet x status device p w in
        save_lem x failed warned uid p between
        ∙ ap (λ (s : PlaybackSession). save_answer failed p (x.exec_upsert s between.db).0) b.object
        ∙ ap (λ (d : x.Db). save_answer failed p (x.exec_upsert target d).0) b.db

    change_status-db :
        (change_status x status failed warned uid device (ok p) w).1.db
        ≡ (x.exec_upsert target w.db).1
    unfolding change_status target between
    change_status-db =
        let b = set_status-StatusSet x status device p w in
        (save-Writes x failed warned uid p between).db
        ∙ ap (λ (s : PlaybackSession). (x.exec_upsert s between.db).1) b.object
        ∙ ap (λ (d : x.Db). (x.exec_upsert target d).1) b.db

    change_status-object :
        (change_status x status failed warned uid device (ok p) w).1.objects p ≡ target
    unfolding change_status target between
    change_status-object =
        ap (λ o. o p) (save-Writes x failed warned uid p between).objects
        ∙ (set_status-StatusSet x status device p w).object

  pub change_status-err :
      (e : Fault) (w : World x)
      → change_status x status failed warned uid device (err e) w ≡ (err e, w)
  unfolding change_status
  change_status-err e w = refl

  module _ (pg : IsPostgres x) (w : World x) where
    change_status-Changed :
        (found : Outcome ℕ) (v : World x) (p : ℕ)
        → seen (found, v) ≡ current x uid w
        → v.clock ≡ w.clock
        → ((u : String) → pg.row u v.db ≡ pg.row u w.db)
        → (change_status x status failed warned uid device found v).0 ≡ ok p
        → Changed pg status device uid p w
            (change_status x status failed warned uid device found v).1
    unfolding target
    change_status-Changed (ok q) v p read clock rows done =
        let (saved, same) = save_answer-eq-ok _ _ _ (sym (change_status_lem q v) ∙ done) in
        let s = with_status status device (x.now v.clock).0 (v.objects q) in
        let e : s ≡ with_status status device (x.now w.clock).0 (v.objects q) =
          ap (λ (k : x.Clock). with_status status device (x.now k).0 (v.objects q)) clock in
        let stored = exec-Persists pg s v.db saved in
        (
          v.objects q,
          sym read,
          rw (← same) (change_status-object q v ∙ e),
          rw (← e) (rw (change_status-db q v) (stored.0, λ u other. stored.1 u other ∙ rows u)),
        )
    change_status-Changed (err f) v p read clock rows done =
        cc (ap (λ r. r.0) (change_status-err f v))

    change_status_missing :
        (found : Outcome ℕ) (v : World x) (e : Fault)
        → seen (found, v) ≡ err e
        → ((u : String) → pg.row u v.db ≡ pg.row u w.db)
        → v.broker ≡ w.broker
        → ((change_status x status failed warned uid device found v).0 ≡ err e)
          × ((u : String)
              → pg.row u (change_status x status failed warned uid device found v).1.db
                ≡ pg.row u w.db)
          × ((change_status x status failed warned uid device found v).1.broker ≡ w.broker)
    change_status_missing (ok q) v e read rows broker = cc
    change_status_missing (err f) v e read rows broker =
        rw (change_status-err f v) (cc, rows, broker)

-- A `Pause` that returns a session returns the one that `Get` finds, with the status paused, the
-- device of the request and the time of the clock, and its track and position kept. It is then
-- the row of its user, as far as the columns keep it, and no other row has changed, also where a
-- goroutine that warms the cache holds the same session. This relies on the laws of PostgreSQL.
pub pause-Changed :
    {x : External} (pg : IsPostgres x) (uid device : String) (w : World x) (p : ℕ)
    → (pause x uid device w).0 ≡ ok p
    → Changed pg status_paused device uid p w (pause x uid device w).1
unfolding pause
pause-Changed {x} pg uid device w p done =
    let r = get-Reads x uid w in
    change_status-Changed x status_paused _ _ uid device pg w (get x uid w).0 (get x uid w).1 p
      (get-seen x uid w) r.clock (λ u. Reads-row pg u r) done

-- A `Resume` that returns a session returns the one that `Get` finds, with the status playing,
-- the device of the request and the time of the clock, and its track and position kept. It is
-- then the row of its user, as far as the columns keep it, and no other row has changed. This
-- relies on the laws of PostgreSQL.
pub resume-Changed :
    {x : External} (pg : IsPostgres x) (uid device : String) (w : World x) (p : ℕ)
    → (resume x uid device w).0 ≡ ok p
    → Changed pg status_playing device uid p w (resume x uid device w).1
unfolding resume
resume-Changed {x} pg uid device w p done =
    let r = get-Reads x uid w in
    change_status-Changed x status_playing _ _ uid device pg w (get x uid w).0 (get x uid w).1 p
      (get-seen x uid w) r.clock (λ u. Reads-row pg u r) done

-- Where `Get` fails, so does `Pause`, with the same error; no row has changed and no message was
-- sent. This relies on the laws of PostgreSQL.
pub pause_missing :
    {x : External} (pg : IsPostgres x) (uid device : String) (w : World x) (e : Fault)
    → current x uid w ≡ err e
    → ((pause x uid device w).0 ≡ err e)
      × ((u : String) → pg.row u (pause x uid device w).1.db ≡ pg.row u w.db)
      × ((pause x uid device w).1.broker ≡ w.broker)
unfolding pause
pause_missing {x} pg uid device w e missing =
    let r = get-Reads x uid w in
    change_status_missing x status_paused _ _ uid device pg w (get x uid w).0 (get x uid w).1 e
      (get-seen x uid w ∙ missing) (λ u. Reads-row pg u r) r.broker
