-- ===== src/Concurrent/Safe/Keyed.antt =====
-- The rules under which the keys of the cache stay in order, with no bound on who writes.
use playback_service.Prelude.{◌<>◌, refl, arith}
use playback_service.External.{External}
use playback_service.External.Laws.{IsReadable, IsRedis, IsPostgres}
use playback_service.World.{started}
use playback_service.World.Tasks.{yield, cache_key_prefix}
use playback_service.World.Frame.{spawn-Undisturbed}
use playback_service.World.Calls.{
  read_clock, redis_get, redis_set, pool_query, pool_exec, writer_write, reader_commit,
}
use playback_service.Session.Isolation.{IsKeyed-IsStable, yield-Keyed}
use playback_service.Session.Isolation.Keyed.{IsKeyed}
use playback_service.Concurrent.Safe.{Grows, Grows-refl, Grows-trans, Grows-of_Undisturbed}
use playback_service.Concurrent.Safe.Heap.{
  allocate-Grows, assign-Grows, called-Grows, advance-Grows,
}
use playback_service.Concurrent.Safe.Rules.{Rules}

module _ {x : External} (redis : IsRedis x) (readable : IsReadable x) (pg : IsPostgres x) where
  unfoldable pub keyed_rules : Rules x
  unfolding read_clock redis_get redis_set pool_query pool_exec writer_write reader_commit
  keyed_rules =
      let stable = IsKeyed-IsStable redis readable in
      record {
        Inv = IsKeyed redis;
        Rely = Grows;
        Writes = λ u. Unit;
        Fine = λ s. Unit;
        Excused = λ u e. Unit;
        stays = Grows-refl;
        joins = λ u v w f g. Grows-trans f g;
        grows = λ g. g;
        fine_later = λ g p within fine. tt;
        fine_own = λ s may. tt;
        log = λ level message attrs v k. (
          stable.log level message attrs v k,
          record { allocated = omega arith; owner = λ p lt. refl },
        );
        allocated = λ s v k. (stable.allocated s v k, allocate-Grows s v);
        clock = λ v k. (k, record { allocated = omega arith; owner = λ p lt. refl });
        get = λ key v k. (stable.get key v k, called-Grows v _ refl refl);
        query = λ uid v k. (stable.query uid v k, called-Grows v _ refl refl);
        write =
            λ topic key value v k. (stable.write topic key value v k, called-Grows v _ refl refl);
        commit = λ msg v k. (stable.commit msg v k, called-Grows v _ refl refl);
        set = λ s key b v may e k. (stable.set s key b e v k, called-Grows v _ refl refl);
        exec = λ s v may k. (stable.exec s v k, called-Grows v _ refl refl);
        assigned = λ p f v same may k. (stable.assigned p f same v k, assign-Grows p f v same);
        spawned = λ uid p v within fine k.
            (stable.spawned uid p v k, Grows-of_Undisturbed (spawn-Undisturbed (started uid p) v));
        turn = λ i w k. (stable.turn i w k, advance-Grows i w);
        query_found = λ uid v s k e.
            let d = (yield x v).1.db in (pg.row_keyed uid d s (pg.query_found uid d s e), tt);
        get_found = λ uid v b s k e decoded.
            let key = cache_key_prefix <> uid in
            let c = (yield x v).1.cache in
            (
              (yield-Keyed redis readable v k).0 key b (redis.get_hit key c b e) uid s refl decoded,
              tt,
            );
        query_missing = λ uid v e k replied missing. tt;
        excused = λ uid e other. tt;
        excused_own = λ uid e may. tt;
      }
