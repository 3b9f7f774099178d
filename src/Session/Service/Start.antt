-- ===== src/Session/Service/Start.antt =====
-- What `Start` answers and leaves in PostgreSQL.
use playback_service.Prelude.{ℕ, String, ◌≡◌, ◌∙◌, sym, ap, arith}
use playback_service.Session.Model.{PlaybackSession, StartRequest}
use playback_service.External.{External, ok}
use playback_service.External.Laws.{IsPostgres}
use playback_service.World.{World, allocate}
use playback_service.World.Calls.{read_clock}
use playback_service.Session.Repository.Rows.{Persists, exec-Persists}
use playback_service.Session.Service.{start_session, start}
use playback_service.Session.Service.Saves.{save_answer, save_answer-eq-ok, save_lem, save-Writes}

module _ (x : External) (uid : String) (req : StartRequest) (w : World x) where
  -- The session that `Start` builds.
  abbrev pub started_session : PlaybackSession
  started_session = start_session uid req (x.now w.clock).0

  -- The world at the call of `Upsert`: the clock is read and the session allocated.
  unfoldable pub allocated : World x
  allocated = (allocate started_session (read_clock x w).1).1

  pub allocated-object : allocated.objects w.next ≡ started_session
  unfolding allocated read_clock
  allocated-object = ground arith

  -- The answer depends on the clock and on PostgreSQL alone.
  pub start_lem :
      (start x uid req w).0
      ≡ save_answer "failed to start session" w.next (x.exec_upsert started_session w.db).0
  unfolding start allocated read_clock
  start_lem =
      save_lem x _ _ uid w.next allocated
      ∙ ap
          (λ (s : PlaybackSession).
            save_answer "failed to start session" w.next (x.exec_upsert s w.db).0)
          allocated-object

  pub start-db : (start x uid req w).1.db ≡ (x.exec_upsert started_session w.db).1
  unfolding start allocated read_clock
  start-db =
      (save-Writes x _ _ uid w.next allocated).db
      ∙ ap (λ (s : PlaybackSession). (x.exec_upsert s w.db).1) allocated-object

  pub start-object : (start x uid req w).1.objects w.next ≡ started_session
  unfolding start allocated read_clock
  start-object =
      ap (λ o. o w.next) (save-Writes x _ _ uid w.next allocated).objects ∙ allocated-object

-- A `Start` that returns a session returns the new one: playing, with the track, the position and
-- the device of the request and the time of the clock. It is then the row of the user, as far as
-- the columns keep it, and no other row has changed, whatever Redis answers and other goroutines
-- do. This relies on the laws of PostgreSQL.
pub start-Persists :
    {x : External} (pg : IsPostgres x) (uid : String) (req : StartRequest) (w : World x) (p : ℕ)
    → (start x uid req w).0 ≡ ok p
    → ((start x uid req w).1.objects p ≡ started_session x uid req w)
      × Persists pg (started_session x uid req w) w.db (start x uid req w).1.db
start-Persists {x} pg uid req w p done =
    let (saved, same) = save_answer-eq-ok _ _ _ (sym (start_lem x uid req w) ∙ done) in
    (
      rw (← same) (start-object x uid req w),
      rw (start-db x uid req w) (exec-Persists pg (started_session x uid req w) w.db saved),
    )
