-- ===== src/Session/Settled/Paused.antt =====
-- What reads find after a `Pause` or a `Resume`.
use mathlib.Core.Path.{subst}
use playback_service.Prelude.{
  ℕ, String, ◌≡◌, refl, sym, ap, ◌∙◌, Option, none, some, [], eqb, if◌then◌else◌,
}
use playback_service.Apperror.{Fault}
use playback_service.Session.Model.{PlaybackSession, status_paused, status_playing}
use playback_service.External.{External, Outcome, ok, err}
use playback_service.External.Laws.{IsReadable, IsRedis, IsPostgres}
use playback_service.World.{World}
use playback_service.World.Calls.{read_clock, assign}
use playback_service.World.Quiet.{yield-Quiet}
use playback_service.Session.Repository.{set_cache, upsert_reply, upsert, get}
use playback_service.Session.Repository.Answers.{seen}
use playback_service.Session.Repository.Effects.{upsert_lem}
use playback_service.Session.Service.{save, set_status, change_status, pause, resume, get_current}
use playback_service.Session.Service.Saves.{save_answer-eq-ok, save_lem, save-Writes}
use playback_service.Session.Service.Change.{Changed, pause-Changed, resume-Changed}
use playback_service.Session.Stable.Service.{pause-Keeps, resume-Keeps}
use playback_service.Session.Isolation.{IsKeyed-IsStable}
use playback_service.Session.Isolation.Users.{Changed-user_id}
use playback_service.Session.Isolation.Keyed.{IsKeyed}
use playback_service.Session.Settled.Apart.{Apart, Apart-Settled}
use playback_service.Session.Settled.Written.{IsWritten, saved-IsWritten, IsWritten-Settled}
use playback_service.Session.Settled.Reads.{Same, get-Same}

module _ (x : External) where
  assign-tasks :
      (p : ℕ) (f : PlaybackSession → PlaybackSession) (w : World x)
      → w.tasks ≡ []
      → (assign x p f w).1.tasks ≡ []
  unfolding assign
  assign-tasks p f w none_left =
      (yield-Quiet (record w { objects = λ q. if eqb p q then f (w.objects p) else w.objects q })
        none_left).tasks

  set_status-tasks :
      (status device : String) (p : ℕ) (w : World x)
      → w.tasks ≡ []
      → (set_status x status device p w).1.tasks ≡ []
  unfolding set_status read_clock
  set_status-tasks status device p w none_left =
      let first = assign-tasks p (λ s. record s { status = status }) w none_left in
      assign-tasks p _ _ (assign-tasks p (λ s. record s { device_id = device }) _ first)

  -- The answer of `SetCache` in a change of the session at a pointer, if there is one.
  abbrev pub change_cached : (status device : String) → Outcome ℕ → World x → Option Fault
  change_cached status device (err e) w = none
  change_cached status device (ok p) w =
      let c = (set_status x status device p w).1 in (set_cache x p (upsert x p c).1).0

  module _ (redis : IsRedis x) (status failed warned uid device : String) where
    change_status-IsWritten :
        (r : Outcome ℕ) (p : ℕ) (w : World x)
        → w.tasks ≡ []
        → (change_status x status failed warned uid device r w).0 ≡ ok p
        → change_cached status device r w ≡ none
        → IsWritten redis
            ((change_status x status failed warned uid device r w).1.objects p)
            (change_status x status failed warned uid device r w).1
    unfolding change_status
    change_status-IsWritten (err e) p w none_left done cached = cc
    change_status-IsWritten (ok q) p w none_left done cached =
        let c = (set_status x status device q w).1 in
        let (taken, same) =
          save_answer-eq-ok _ _ _ (sym (save_lem x failed warned uid q c) ∙ done) in
        let stored : (upsert x q c).0 ≡ none = upsert_lem x q c ∙ ap (upsert_reply x) taken in
        let after = (save x failed warned uid q c).1 in
        let object : c.objects q ≡ after.objects p =
          ap (λ o. o q) (sym (save-Writes x failed warned uid q c).objects)
          ∙ ap after.objects same in
        subst (λ t. IsWritten redis t after) object
          (saved-IsWritten redis failed warned uid q (c.objects q) c
            (set_status-tasks status device q w none_left) refl stored cached)

  -- The answers of `SetCache` in `Pause` and in `Resume`.
  abbrev pub pause_cached : (uid device : String) → World x → Option Fault
  pause_cached uid device w =
      let (found, v) = get x uid w in change_cached status_paused device found v

  abbrev pub resume_cached : (uid device : String) → World x → Option Fault
  resume_cached uid device w =
      let (found, v) = get x uid w in change_cached status_playing device found v

module _ {x : External} (redis : IsRedis x) (readable : IsReadable x) (pg : IsPostgres x)
    (uid device : String) (w v : World x) (p : ℕ) (keyed : IsKeyed redis w) where
  -- Reads after a change of which Redis took the write.
  Changed-Same :
      (status : String) (after : World x)
      → Changed pg status device uid p w after
      → IsWritten redis (after.objects p) after
      → IsKeyed redis after
      → Apart uid after v
      → Same redis readable pg (after.objects p) (seen (get x uid v))
  Changed-Same status after changed written in_order apart =
      let t = after.objects p in
      let (s, found, object, saved) = changed in
      let owner : t.user_id ≡ uid =
        Changed-user_id redis readable pg uid w keyed status device p after changed in
      let row : pg.row t.user_id after.db ≡ some (pg.stored t) =
        subst (λ (q : PlaybackSession). pg.row q.user_id after.db ≡ some (pg.stored q)) (sym object)
          saved.0 in
      let settled = IsWritten-Settled redis readable pg t after written row in
      let apart_own = subst (λ u. Apart u after v) (sym owner) apart in
      subst (λ u. Same redis readable pg t (seen (get x u v))) owner
        (get-Same redis readable pg t v
          (Apart-Settled redis readable pg t apart_own in_order settled))

  -- Every device sees a pause. After a `Pause` that returns a session, from a state with the keys of
  -- the cache in order, where its read started no goroutine and left none, as after a hit in the
  -- cache, and where Redis took its write: until the user changes the session, whatever others do,
  -- `GetCurrent` returns the session that the `Pause` returned, to the precision of the columns, or
  -- says that the query failed. This relies on the laws of Redis, PostgreSQL and the text forms.
  pub pause_read :
      (get x uid w).1.tasks ≡ []
      → (pause x uid device w).0 ≡ ok p
      → pause_cached x uid device w ≡ none
      → Apart uid (pause x uid device w).1 v
      → Same redis readable pg ((pause x uid device w).1.objects p) (seen (get_current x uid v))
  unfolding pause get_current
  pause_read none_left done cached apart =
      Changed-Same status_paused (pause x uid device w).1 (pause-Changed pg uid device w p done)
        (change_status-IsWritten x redis status_paused _ _ uid device (get x uid w).0 p
          (get x uid w).1 none_left done cached)
        (pause-Keeps (IsKeyed redis) (IsKeyed-IsStable redis readable) uid device w keyed) apart

  -- Every device sees a resume. After a `Resume` that returns a session, from a state with the keys of
  -- the cache in order, where its read started no goroutine and left none, and where Redis took its
  -- write: until the user changes the session, whatever others do, `GetCurrent` returns the session
  -- that the `Resume` returned, to the precision of the columns, or says that the query failed. This
  -- relies on the laws of Redis, PostgreSQL and the text forms.
  pub resume_read :
      (get x uid w).1.tasks ≡ []
      → (resume x uid device w).0 ≡ ok p
      → resume_cached x uid device w ≡ none
      → Apart uid (resume x uid device w).1 v
      → Same redis readable pg ((resume x uid device w).1.objects p) (seen (get_current x uid v))
  unfolding resume get_current
  resume_read none_left done cached apart =
      Changed-Same status_playing (resume x uid device w).1 (resume-Changed pg uid device w p done)
        (change_status-IsWritten x redis status_playing _ _ uid device (get x uid w).0 p
          (get x uid w).1 none_left done cached)
        (resume-Keeps (IsKeyed redis) (IsKeyed-IsStable redis readable) uid device w keyed) apart
