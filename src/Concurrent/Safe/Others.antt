-- ===== src/Concurrent/Safe/Others.antt =====
-- The rules under which a user's session stays as it is while the other users write theirs.
use playback_service.Prelude.{ℕ, ◌<◌, String, ◌<>◌, ◌≡◌, ◌≢◌, refl, sym, ap, ◌∙◌, some, true}
use playback_service.Apperror.{http_status, Fault, is, no_rows}
use playback_service.Session.Model.{PlaybackSession}
use playback_service.External.{External, ok, err}
use playback_service.External.Laws.{IsReadable, IsRedis, IsPostgres}
use playback_service.World.{World, started}
use playback_service.World.Tasks.{yield, spawn, cache_key_prefix}
use playback_service.World.Frame.{spawn-Undisturbed, advance-Undisturbed}
use playback_service.World.Held.{spawn-Held, yield-Held}
use playback_service.World.Calls.{
  read_clock, redis_get, redis_set, pool_query, pool_exec, writer_write, reader_commit,
}
use playback_service.Session.Repository.{unmarshal_session}
use playback_service.Session.Settled.{
  IsVersion, IsEntry, IsPointer, made, Settled, yield-Settled, redis_get-Settled, allocate-Settled,
  query-IsFound, advance-Settled,
}
use playback_service.Session.Settled.Others.{exec-Settled, set-Settled}
use playback_service.Session.Settled.Changes.{assign-Settled}
use playback_service.Session.Isolation.Keyed.{IsKeyed}
use playback_service.Concurrent.Safe.Rules.{Rules}
use playback_service.Concurrent.Safe.Keyed.{keyed_rules}
use playback_service.Concurrent.Safe.Leaves.{
  Leaves, Leaves-refl, Leaves-trans, Leaves-of_Undisturbed, Leaves-of_objects, called-Leaves,
  allocate-Leaves, assign-Leaves,
}

module _ {x : External} (redis : IsRedis x) (readable : IsReadable x) (pg : IsPostgres x)
    (s : PlaybackSession) where
  -- Of this user's sessions, one that may be read is a version of `s`.
  abbrev pub Version : PlaybackSession → Type 0
  Version t = t.user_id ≡ s.user_id → IsVersion pg s t

  pub Version-later :
      {w v : World x}
      → Leaves s w v
      → (p : ℕ) → p < w.next
      → Version (w.objects p)
      → Version (v.objects p)
  Version-later g p within version own =
      let gg = g.grows in
      let before = sym (gg.owner p within) ∙ own in rw (g.same p within before) (version before)

  pub spawn-Settled :
      (uid : String) (p : ℕ) (w : World x)
      → p < w.next
      → Version (w.objects p)
      → Settled pg s redis w
      → Settled pg s redis (spawn x (started uid p) w).1
  spawn-Settled uid p w within version k = record {
    row = ap (pg.row s.user_id) (spawn-Undisturbed (started uid p) w).db ∙ k.row;
    held =
        spawn-Held redis (IsEntry pg s) (IsPointer pg s) (made pg s readable) (started uid p) w
          (within, version) k.held;
  }

  pub cached-Version :
      (uid : String) (v : World x) (b : x.Bytes) (t : PlaybackSession)
      → Settled pg s redis v
      → (x.cache_get (cache_key_prefix <> uid) (yield x v).1.cache).0 ≡ ok b
      → unmarshal_session x b ≡ some t
      → t.user_id ≡ uid
      → Version t
  cached-Version uid v b t k hit decoded own mine =
      let key = cache_key_prefix <> uid in
      let held = yield-Held redis (IsEntry pg s) (IsPointer pg s) (made pg s readable) v k.held in
      held.0 key b (redis.get_hit key (yield x v).1.cache b hit) t
        (ap (λ u. cache_key_prefix <> u) (sym own ∙ mine)) decoded

  pub missing-Excused :
      (uid : String) (v : World x) (e : Fault)
      → Settled pg s redis v
      → (x.query_row uid (yield x v).1.db).0 ≡ err e
      → is e no_rows ≡ true
      → uid ≢ s.user_id
  missing-Excused uid v e k replied missing same =
      let y = yield-Settled redis readable pg s v k in
      let d = (yield x v).1.db in
      let none_there = pg.query_missing uid d e replied missing in
      let there = ap (λ u. pg.row u d) same ∙ y.row in cc (none_there, there)

  -- `keyed_rules`, and the session of the user in addition.
  unfoldable pub others_rules : Rules x
  unfolding keyed_rules read_clock redis_get redis_set pool_query pool_exec writer_write
      reader_commit
  others_rules =
      let base = keyed_rules redis readable pg in
      record {
        Inv = λ w. IsKeyed redis w × Settled pg s redis w;
        Rely = Leaves s;
        Writes = λ u. u ≢ s.user_id;
        Fine = Version;
        Excused = λ u e. u ≡ s.user_id → http_status e ≢ 404;
        stays = Leaves-refl s;
        joins = Leaves-trans s;
        grows = λ g. g.grows;
        fine_later = Version-later;
        fine_own = λ t may own. absurd (may own);
        log = λ level message attrs v k. (
          ((base.log level message attrs v k.0).0, record { row = k.1.row; held = k.1.held }),
          Leaves-of_objects s v _ (base.log level message attrs v k.0).1 refl,
        );
        allocated = λ t v k. (
          ((base.allocated t v k.0).0, allocate-Settled redis readable pg s t v k.1),
          allocate-Leaves s t v,
        );
        clock = λ v k. (
          ((base.clock v k.0).0, record { row = k.1.row; held = k.1.held }),
          Leaves-of_objects s v _ (base.clock v k.0).1 refl,
        );
        get = λ key v k. (
          ((base.get key v k.0).0, redis_get-Settled redis readable pg s key v k.1),
          called-Leaves s v _ refl refl,
        );
        query = λ uid v k.
            let y = yield-Settled redis readable pg s v k.1 in
            (
              (
                (base.query uid v k.0).0,
                record {
                  row = pg.query_keeps uid s.user_id (yield x v).1.db ∙ y.row;
                  held = y.held;
                },
              ),
              called-Leaves s v _ refl refl,
            );
        write = λ topic key value v k.
            let y = yield-Settled redis readable pg s v k.1 in
            (
              ((base.write topic key value v k.0).0, record { row = y.row; held = y.held }),
              called-Leaves s v _ refl refl,
            );
        commit = λ msg v k.
            let y = yield-Settled redis readable pg s v k.1 in
            (
              ((base.commit msg v k.0).0, record { row = y.row; held = y.held }),
              called-Leaves s v _ refl refl,
            );
        set = λ t key b v may e k. (
          ((base.set t key b v tt e k.0).0, set-Settled redis readable pg s t key b v may e k.1),
          called-Leaves s v _ refl refl,
        );
        exec = λ t v may k. (
          ((base.exec t v tt k.0).0, exec-Settled redis readable pg s t v may k.1),
          called-Leaves s v _ refl refl,
        );
        assigned = λ p f v same may k. (
          (
            (base.assigned p f v same tt k.0).0,
            assign-Settled redis readable pg s p f v same may k.1,
          ),
          assign-Leaves s p f v same may,
        );
        spawned = λ uid p v within version k. (
          ((base.spawned uid p v within tt k.0).0, spawn-Settled uid p v within version k.1),
          Leaves-of_Undisturbed s v _ (spawn-Undisturbed (started uid p) v),
        );
        turn = λ i w k. (
          ((base.turn i w k.0).0, advance-Settled redis readable pg s i w k.1),
          Leaves-of_Undisturbed s w _ (advance-Undisturbed i w),
        );
        query_found = λ uid v t k e.
            let y = yield-Settled redis readable pg s v k.1 in
            (
              (base.query_found uid v t k.0 e).0,
              query-IsFound redis readable pg s uid (yield x v).1 y t e,
            );
        get_found = λ uid v b t k e decoded.
            let own = (base.get_found uid v b t k.0 e decoded).0 in
            (own, cached-Version uid v b t k.1 e decoded own);
        query_missing = λ uid v e k replied missing same.
            absurd (missing-Excused uid v e k.1 replied missing same);
        excused = λ uid e other same. other;
        excused_own = λ uid e may same. absurd (may same);
      }
