-- ===== src/Session/Settled/Others.antt =====
-- What the writes for another user leave of a user's session: all of it.
use text.Mathlib.TextLemmas.{append_cancel_left}
use playback_service.Prelude.{ℕ, String, ◌≡◌, ◌≢◌, refl, sym, ap, ◌∙◌, Option, none, some, arith}
use playback_service.Apperror.{Fault}
use playback_service.Session.Model.{PlaybackSession, StartRequest}
use playback_service.External.{External, Outcome, ok, err}
use playback_service.External.Laws.{IsReadable, IsRedis, IsPostgres}
use playback_service.World.{World, allocate}
use playback_service.World.Tasks.{yield, cache_key_prefix, cache_ttl, marshal_for_cache}
use playback_service.World.Calls.{read_clock, redis_set, pool_exec}
use playback_service.World.Held.{redis_set-Held}
use playback_service.Session.Repository.{set_bytes, set_cache, upsert}
use playback_service.Session.Repository.Decoded.{marshal_for_cache-key}
use playback_service.Session.Repository.Effects.{upsert-Writes, redis_set-Undisturbed}
use playback_service.Session.Repository.Rows.{exec-row_other}
use playback_service.Session.Service.{start_session, warn_cache, cache_saved, save, start}
use playback_service.Session.Settled.{
  IsEntry, IsPointer, made, Settled, yield-Settled, allocate-Settled,
}

-- A pointer to a session of another user.
abbrev pub Elsewhere : {x : External} → PlaybackSession → ℕ → World x → Type 0
Elsewhere s p w = (w.objects p).user_id ≢ s.user_id

module _ {x : External} (redis : IsRedis x) (readable : IsReadable x) (pg : IsPostgres x)
    (s : PlaybackSession) where
  pub exec-Settled :
      (t : PlaybackSession) (w : World x)
      → t.user_id ≢ s.user_id
      → Settled pg s redis w
      → Settled pg s redis (pool_exec x t w).1
  unfolding pool_exec
  exec-Settled t w other k =
      let y = yield-Settled redis readable pg s w k in
      record { row = exec-row_other pg t (yield x w).1.db s.user_id other ∙ y.row; held = y.held }

  pub set-Settled :
      (t : PlaybackSession) (key : String) (b : x.Bytes) (w : World x)
      → t.user_id ≢ s.user_id
      → marshal_for_cache x t ≡ ok (key, b)
      → Settled pg s redis w
      → Settled pg s redis (redis_set x key b cache_ttl w).1
  set-Settled t key b w other e k = record {
    row = ap (pg.row s.user_id) (redis_set-Undisturbed x key b cache_ttl w).db ∙ k.row;
    held =
        redis_set-Held redis (IsEntry pg s) (IsPointer pg s) (made pg s readable) key b w
          (λ r same decoded. absurd (
            other (
              append_cancel_left cache_key_prefix t.user_id s.user_id
                (marshal_for_cache-key x t key b e ∙ same))))
          k.held;
  }

  pub upsert-Settled :
      (p : ℕ) (w : World x)
      → Elsewhere s p w
      → Settled pg s redis w
      → Settled pg s redis (upsert x p w).1
  unfolding upsert
  upsert-Settled p w other k = exec-Settled (w.objects p) w other k

  set_bytes-Settled :
      (p : ℕ) (m : Outcome (String × x.Bytes)) (w : World x)
      → Elsewhere s p w
      → marshal_for_cache x (w.objects p) ≡ m
      → Settled pg s redis w
      → Settled pg s redis (set_bytes x m w).1
  set_bytes-Settled p (err e) w other is k = k
  set_bytes-Settled p (ok (key, b)) w other is k = set-Settled (w.objects p) key b w other is k

  pub set_cache-Settled :
      (p : ℕ) (w : World x)
      → Elsewhere s p w
      → Settled pg s redis w
      → Settled pg s redis (set_cache x p w).1
  unfolding set_cache
  set_cache-Settled p w other k =
      set_bytes-Settled p (marshal_for_cache x (w.objects p)) w other refl k

  pub warn_cache-Settled :
      (message uid : String) (r : Option Fault) (w : World x)
      → Settled pg s redis w
      → Settled pg s redis (warn_cache x message uid r w).1
  warn_cache-Settled message uid none w k = k
  warn_cache-Settled message uid (some e) w k = record { row = k.row; held = k.held }

  cache_saved-Settled :
      (warned uid : String) (p : ℕ) (r : Option Fault) (failed : String) (w : World x)
      → Elsewhere s p w
      → Settled pg s redis w
      → Settled pg s redis (cache_saved x warned uid p r failed w).1
  cache_saved-Settled warned uid p (some e) failed w other k = k
  cache_saved-Settled warned uid p none failed w other k =
      warn_cache-Settled warned uid _ _ (set_cache-Settled p w other k)

  pub save-Settled :
      (failed warned uid : String) (p : ℕ) (w : World x)
      → Elsewhere s p w
      → Settled pg s redis w
      → Settled pg s redis (save x failed warned uid p w).1
  unfolding save
  save-Settled failed warned uid p w other k =
      let kept : (upsert x p w).1.objects ≡ w.objects = (upsert-Writes x p w).objects in
      cache_saved-Settled warned uid p _ failed _
        (λ same. other (ap (λ o. (o p).user_id) (sym kept) ∙ same)) (upsert-Settled p w other k)

  pub start-Settled :
      (uid : String) (req : StartRequest) (w : World x)
      → uid ≢ s.user_id
      → Settled pg s redis w
      → Settled pg s redis (start x uid req w).1
  unfolding start read_clock
  start-Settled uid req w other k =
      let (t, c) = x.now w.clock in
      let v = record w { clock = c } in
      let fresh : (allocate (start_session uid req t) v).1.objects w.next
          ≡ start_session uid req t =
        ground arith in
      save-Settled _ _ uid w.next _ (rw fresh other) (
        allocate-Settled redis readable pg s (start_session uid req t) v
          (record { row = k.row; held = k.held }))
