-- ===== src/Session/Settled/Written.antt =====
-- What a `Start` leaves in Redis and in PostgreSQL.
use mathlib.Core.Path.{subst}
use playback_service.Prelude.{
  ℕ, String, ◌≡◌, refl, sym, ap, ◌∙◌, Option, none, some, inl, [], arith,
}
use playback_service.Apperror.{Fault}
use playback_service.Session.Model.{PlaybackSession, StartRequest}
use playback_service.External.{External, Outcome, ok, err}
use playback_service.External.Laws.{IsReadable, IsRedis, IsPostgres}
use playback_service.World.{World}
use playback_service.World.Tasks.{yield, cache_ttl, marshal_for_cache}
use playback_service.World.Calls.{read_clock, redis_set}
use playback_service.World.Quiet.{yield-Quiet}
use playback_service.World.Held.{TasksHold}
use playback_service.Session.Repository.{
  unmarshal_session, set_bytes, set_cache, upsert_reply, upsert,
}
use playback_service.Session.Repository.Decoded.{marshal_for_cache-key, marshal_for_cache-decoded}
use playback_service.Session.Repository.Effects.{upsert_lem, upsert-Writes}
use playback_service.Session.Service.{warn_cache, cache_saved, save, start}
use playback_service.Session.Service.Synced.{upsert-Quiet}
use playback_service.Session.Service.Start.{started_session, allocated, allocated-object, start_lem}
use playback_service.Session.Service.Saves.{save_answer-eq-ok}
use playback_service.Session.Settled.{IsEntry, IsPointer, Settled}

-- The session is what Redis holds for its user, and no goroutine is left to run.
pub record IsWritten {x : External} (redis : IsRedis x) (s : PlaybackSession) (w : World x)
    : Type 0 where
  pub tasks : w.tasks ≡ []
  pub key : String
  pub bytes : x.Bytes
  pub made_of : marshal_for_cache x s ≡ ok (key, bytes)
  pub entry : redis.entry key w.cache ≡ some bytes

module _ {x : External} (redis : IsRedis x) where
  set_bytes-IsWritten :
      (s : PlaybackSession) (m : Outcome (String × x.Bytes)) (w : World x)
      → w.tasks ≡ []
      → marshal_for_cache x s ≡ m
      → (set_bytes x m w).0 ≡ none
      → IsWritten redis s (set_bytes x m w).1
  unfolding redis_set
  set_bytes-IsWritten s (ok (key, b)) w none_left e done = record {
    tasks = (yield-Quiet w none_left).tasks;
    key = key;
    bytes = b;
    made_of = e;
    entry = redis.set_done key b cache_ttl (yield x w).1.cache (ground arith) done;
  }
  set_bytes-IsWritten s (err f) w none_left e done = cc

  pub IsWritten-Settled :
      (readable : IsReadable x) (pg : IsPostgres x) (s : PlaybackSession) (w : World x)
      → IsWritten redis s w
      → pg.row s.user_id w.db ≡ some (pg.stored s)
      → Settled pg s redis w
  IsWritten-Settled readable pg s w k row = record {
    row = row;
    held = (
      λ key b held t same decoded.
          let own = marshal_for_cache-key x s k.key k.bytes k.made_of in
          let found : some b ≡ some k.bytes =
            sym held ∙ ap (λ i. redis.entry i w.cache) (same ∙ own) ∙ k.entry in
          let bytes : b ≡ k.bytes = cc found in
          inl (
            marshal_for_cache-decoded readable s t k.key k.bytes k.made_of
              (ap (unmarshal_session x) (sym bytes) ∙ decoded)),
      subst (TasksHold redis (IsEntry pg s) (IsPointer pg s) w.objects w.next) (sym k.tasks) tt,
    );
  }

  set_cache-IsWritten :
      (p : ℕ) (w : World x)
      → w.tasks ≡ []
      → (set_cache x p w).0 ≡ none
      → IsWritten redis (w.objects p) (set_cache x p w).1
  unfolding set_cache
  set_cache-IsWritten p w none_left done =
      set_bytes-IsWritten (w.objects p) (marshal_for_cache x (w.objects p)) w none_left refl done

  -- The end of a `save` that the database took, where Redis took its write too.
  pub saved-IsWritten :
      (failed warned uid : String) (p : ℕ) (s : PlaybackSession) (w : World x)
      → w.tasks ≡ []
      → w.objects p ≡ s
      → (upsert x p w).0 ≡ none
      → (set_cache x p (upsert x p w).1).0 ≡ none
      → IsWritten redis s (save x failed warned uid p w).1
  unfolding save
  saved-IsWritten failed warned uid p s w none_left object stored done =
      let u = (upsert x p w).1 in
      let same : u.objects p ≡ s = ap (λ o. o p) (upsert-Writes x p w).objects ∙ object in
      rw (stored, cache_saved, done, warn_cache)
        (subst (λ t. IsWritten redis t (set_cache x p u).1) same
          (set_cache-IsWritten p u (upsert-Quiet x p w none_left).tasks done))

module _ (x : External) (uid : String) (req : StartRequest) (w : World x) where
  -- The answer of `SetCache` in `Start`.
  unfoldable pub start_cached : Option Fault
  start_cached = (set_cache x w.next (upsert x w.next (allocated x uid req w)).1).0

  pub start-IsWritten :
      (redis : IsRedis x) (p : ℕ)
      → w.tasks ≡ []
      → (start x uid req w).0 ≡ ok p
      → start_cached ≡ none
      → IsWritten redis (started_session x uid req w) (start x uid req w).1
  unfolding start start_cached allocated read_clock
  start-IsWritten redis p none_left done cached =
      let (taken, _) = save_answer-eq-ok _ _ _ (sym (start_lem x uid req w) ∙ done) in
      let a = allocated x uid req w in
      let stored : (upsert x w.next a).0 ≡ none =
        upsert_lem x w.next a
        ∙ ap (λ s. upsert_reply x (x.exec_upsert s w.db).0) (allocated-object x uid req w)
        ∙ ap (upsert_reply x) taken in
      saved-IsWritten redis _ _ uid w.next (started_session x uid req w) a none_left
        (allocated-object x uid req w) stored cached
