-- ===== src/Session/Isolation.antt =====
-- No user is answered with another user's session.
pub mod Keyed
pub mod Users
pub mod Bodies
use playback_service.Prelude.{
  ℕ, String, ◌<>◌, ◌≡◌, Option, none, some, inl, inr, List, [], ◌∷◌, ◌++◌, eqb, if◌then◌else◌, refl,
  sym, ap, ◌∙◌, Bool-cases, Option-cases,
}
use playback_service.Session.Model.{PlaybackSession}
use playback_service.External.{External, Outcome, ok, err}
use playback_service.External.Laws.{IsReadable, IsRedis, IsPostgres}
use playback_service.World.{World, started, allocate}
use playback_service.World.Tasks.{yield, marshal_for_cache, spawn, cache_key_prefix, cache_ttl}
use playback_service.World.Calls.{
  read_clock, redis_get, redis_set, pool_query, pool_exec, writer_write, assign, reader_commit,
}
use playback_service.World.Stable.{IsStable}
use playback_service.Apperror.{is, no_rows}
use playback_service.Session.Repository.{unmarshal_session, get}
use playback_service.Session.Repository.Answers.{
  seen, usable, usable-some, row_answer, get_answer, get-seen,
}
use playback_service.World.Held.{
  TasksHold, TasksHold-map, advance-Held, yield-Held, spawn-Held, redis_get-Held, redis_set-Held,
}
use playback_service.Session.Isolation.Keyed.{
  Belongs, AnyPointer, IsKeyed, marshal_for_cache-Belongs,
}

module _ {x : External} (redis : IsRedis x) (readable : IsReadable x) where
  made :
      (o : ℕ → PlaybackSession) (n p : ℕ) (key : String) (b : x.Bytes)
      → AnyPointer x o n p
      → marshal_for_cache x (o p) ≡ ok (key, b)
      → Belongs x key b
  made o n p key b any e = marshal_for_cache-Belongs x readable (o p) key b e

  pub yield-Keyed : (w : World x) → IsKeyed redis w → IsKeyed redis (yield x w).1
  yield-Keyed w k = yield-Held redis (Belongs x) (AnyPointer x) made w k

  -- The goroutines hold what they hold in any heap.
  moved :
      (o o' : ℕ → PlaybackSession) (n n' : ℕ) (w : World x)
      → TasksHold redis (Belongs x) (AnyPointer x) o n w.tasks
      → TasksHold redis (Belongs x) (AnyPointer x) o' n' w.tasks
  moved o o' n n' w k =
      TasksHold-map redis (Belongs x) (AnyPointer x) o o' n n' (λ p any. tt) w.tasks k

  pub IsKeyed-IsStable : IsStable (IsKeyed redis)
  unfolding read_clock pool_query pool_exec writer_write reader_commit assign
  IsKeyed-IsStable = record {
    log = λ level message attrs w k. k;
    allocated =
        λ s w k. (k.0, moved w.objects (allocate s w).1.objects w.next (allocate s w).1.next w k.1);
    clock = λ w k. k;
    get = redis_get-Held redis (Belongs x) (AnyPointer x) made;
    set = λ s key b is w k.
        redis_set-Held redis (Belongs x) (AnyPointer x) made key b w
          (marshal_for_cache-Belongs x readable s key b is) k;
    query = λ uid w k. yield-Keyed w k;
    exec = λ s w k. yield-Keyed w k;
    write = λ topic key value w k. yield-Keyed w k;
    commit = λ msg w k. yield-Keyed w k;
    assigned = λ p f same w k.
        let objects = λ (q : ℕ). if eqb p q then f (w.objects p) else w.objects q in
        yield-Keyed (record w { objects = objects })
          (k.0, moved w.objects objects w.next w.next w k.1);
    spawned = λ uid p w k. spawn-Held redis (Belongs x) (AnyPointer x) made (started uid p) w tt k;
    turn = λ i w k. advance-Held redis (Belongs x) (AnyPointer x) made i w k;
    scheduled = λ s w k. k;
  }

module _ {x : External} (redis : IsRedis x) (pg : IsPostgres x) (u : String) where
  row_answer-ok :
      (r : Outcome PlaybackSession) (s : PlaybackSession) → row_answer x r ≡ ok s → r ≡ ok s
  row_answer-ok (ok t) s e = e
  row_answer-ok (err f) s e = elim (Bool-cases (is f no_rows)) [
    | inl missing ↦ cc (rw missing at e)
    | inr other ↦ cc (rw other at e)
  ]

  -- The answer of `Get` is a session of the user who asked.
  pub get-user_id :
      (readable : IsReadable x) (w : World x) (s : PlaybackSession)
      → IsKeyed redis w
      → seen (get x u w) ≡ ok s
      → s.user_id ≡ u
  get-user_id readable w s k answered =
      let c = (yield x w).1.cache in
      let r = (x.cache_get (cache_key_prefix <> u) c).0 in
      let row = (x.query_row u w.db).0 in
      let answer : get_answer x (usable x r) row ≡ ok s = sym (get-seen x u w) ∙ answered in
      elim (Option-cases (usable x r)) [
        | inl miss ↦
            let found = row_answer-ok row s (rw miss at answer) in
            pg.row_keyed u w.db s (pg.query_found u w.db s found)
        | inr (t, hit) ↦
            let (b, replied, decoded) = usable-some x r t hit in
            let same : t ≡ s = cc (rw hit at answer) in
            sym (ap (λ (q : PlaybackSession). q.user_id) same)
            ∙ (yield-Keyed redis readable w k).0 (cache_key_prefix <> u) b
                (redis.get_hit (cache_key_prefix <> u) c b replied) u t refl decoded
      ]
