-- ===== src/Concurrent/Safe/Repository.antt =====
-- internal/session/repository.go: `Get` answers with a session of the user who asks.
use mathlib.Core.Path.{subst}
use playback_service.Prelude.{
  ℕ, String, ◌<>◌, ◌≡◌, refl, arith, Bool-cases, inl, inr, Option, none, some, true,
}
use playback_service.Apperror.{
  Fault, Error, as_app, http_status, new_internal, new_not_found, redis_nil, no_rows, is,
}
use playback_service.Session.Model.{PlaybackSession}
use playback_service.Session.Repository.{unmarshal_session}
use playback_service.External.{External, Outcome, ok, err}
use playback_service.World.{World, log_line, allocate, deref, started}
use playback_service.World.Tasks.{cache_key_prefix, cache_ttl, marshal_for_cache, spawn}
use playback_service.World.Calls.{redis_get, redis_set, pool_query, pool_exec}
use playback_service.Concurrent.{ret, ◌>>=◌, ◌>>◌}
use playback_service.Concurrent.Repository.{
  scanned, get_from_db, sent_bytes, set_cache, upsert, warming, from_db, entry_found,
  cache_answered, get,
}
use playback_service.Concurrent.Safe.Rules.{
  Rules, Mine, Mine-later, Writable, Writable-later, Obeys, Any, Obeys-ret, Obeys-call, Obeys-bind,
}

failed_status :
    (er : Error) (e : Fault) → er ≡ new_internal "db query failed" e → http_status er ≡ 404 → ⊥
failed_status er e same status =
    let own : http_status (new_internal "db query failed" e) ≡ 404 = cc (same, status) in
    omega (arith, own)

module _ {x : External} (rules : Rules x) where
  pub allocate-Mine :
      (uid : String) (s : PlaybackSession) (w : World x)
      → s.user_id ≡ uid
      → rules.Fine s
      → Mine rules uid (ok w.next) (allocate s w).1
  allocate-Mine uid s w own fine =
      let fresh : (allocate s w).1.objects w.next ≡ s = ground arith in
      (omega arith, rw fresh own, rw fresh fine)

  pub allocate-Writable :
      (s : PlaybackSession) (w : World x)
      → rules.Writes s.user_id
      → Writable rules w.next (allocate s w).1
  allocate-Writable s w may =
      let fresh : (allocate s w).1.objects w.next ≡ s = ground arith in (omega arith, rw fresh may)

  sent_bytes-Obeys :
      (s : PlaybackSession) (m : Outcome (String × x.Bytes)) (w : World x)
      → rules.Writes s.user_id
      → marshal_for_cache x s ≡ m
      → Obeys rules (Any rules) (sent_bytes x m) w
  sent_bytes-Obeys s (ok (key, b)) w may e =
      Obeys-call rules (Any rules) (redis_set x key b cache_ttl) ret w
        (λ v r. rules.set s key b v may e) λ v r i l. Obeys-ret rules (Any rules) _ _ tt
  sent_bytes-Obeys s (err f) w may e = Obeys-ret rules (Any rules) _ w tt

  pub set_cache-Obeys :
      (p : ℕ) (w : World x) → Writable rules p w → Obeys rules (Any rules) (set_cache x p) w
  unfolding set_cache ◌>>=◌
  set_cache-Obeys p w may =
      Obeys-call rules (Any rules) (deref p) _ w (λ v r i. (i, rules.stays v))
        λ v r i l.
          sent_bytes-Obeys (v.objects p) (marshal_for_cache x (v.objects p)) v
            (Writable-later rules p r may).1 refl

  pub upsert-Obeys :
      (p : ℕ) (w : World x) → Writable rules p w → Obeys rules (Any rules) (upsert x p) w
  unfolding upsert ◌>>=◌
  upsert-Obeys p w may =
      Obeys-call rules (Any rules) (deref p) _ w (λ v r i. (i, rules.stays v))
        λ v r i l.
          Obeys-call rules (Any rules) (pool_exec x (v.objects p)) _ v
            (λ u h. rules.exec (v.objects p) u (Writable-later rules p r may).1)
            λ u h j l. Obeys-ret rules (Any rules) _ _ tt

  module _ (uid : String) where
    scanned-Obeys :
        (r : Outcome PlaybackSession) (w : World x)
        → ((s : PlaybackSession) → r ≡ ok s → (s.user_id ≡ uid) × rules.Fine s)
        → ((e : Fault)
            → r ≡ err e
            → is e no_rows ≡ true
            → rules.Excused uid (new_not_found "playback session not found"))
        → Obeys rules (Mine rules uid) (scanned x r) w
    unfolding ◌>>=◌ as_app
    scanned-Obeys (ok s) w own missing =
        Obeys-call rules (Mine rules uid) (allocate s) _ w (λ v r. rules.allocated s v)
          λ v r i l.
            Obeys-ret rules (Mine rules uid) _ _
              (allocate-Mine uid s v (own s refl).0 (own s refl).1)
    scanned-Obeys (err e) w own missing = elim (Bool-cases (is e no_rows)) [
      | inl none_found ↦ rw none_found (
          Obeys-ret rules (Mine rules uid) _ w
            λ er same. subst (rules.Excused uid) (cc same) (missing e refl none_found))
      | inr other ↦ rw other (
          Obeys-ret rules (Mine rules uid) _ w
            λ er same. rules.excused uid er λ status. failed_status er e (cc same) status)
    ]

    warming-Obeys :
        (r : Outcome ℕ) (w : World x)
        → Mine rules uid r w
        → Obeys rules (Mine rules uid) (warming x uid r) w
    unfolding ◌>>=◌ ◌>>◌
    warming-Obeys (err e) w own = Obeys-ret rules (Mine rules uid) _ w own
    warming-Obeys (ok p) w own =
        Obeys-call rules (Mine rules uid) (spawn x (started uid p)) _ w
          (λ v r.
            let mine = Mine-later rules uid (ok p) r own in rules.spawned uid p v mine.0 mine.2)
          λ v r i l. Obeys-ret rules (Mine rules uid) _ _ (Mine-later rules uid (ok p) l own)

    from_db-Obeys : (w : World x) → Obeys rules (Mine rules uid) (from_db x uid) w
    unfolding ◌>>=◌ from_db get_from_db
    from_db-Obeys w =
        Obeys-call rules (Mine rules uid) (pool_query x uid) _ w (λ v r. rules.query uid v)
          λ v r i l.
            let row = pool_query x uid v in
            Obeys-bind rules (Mine rules uid) (Mine rules uid) (scanned x row.0) (warming x uid)
              row.1
              (scanned-Obeys row.0 row.1 (λ s e. rules.query_found uid v s i e)
                λ e replied missing. rules.query_missing uid v e i replied missing)
              λ r u h own. warming-Obeys r u own

    entry_found-Obeys :
        (found : Option PlaybackSession) (w : World x)
        → ((s : PlaybackSession) → found ≡ some s → (s.user_id ≡ uid) × rules.Fine s)
        → Obeys rules (Mine rules uid) (entry_found x uid found) w
    unfolding ◌>>=◌ ◌>>◌
    entry_found-Obeys (some s) w own =
        Obeys-call rules (Mine rules uid) (allocate s) _ w (λ v r. rules.allocated s v)
          λ v r i l.
            Obeys-ret rules (Mine rules uid) _ _
              (allocate-Mine uid s v (own s refl).0 (own s refl).1)
    entry_found-Obeys none w own =
        Obeys-call rules (Mine rules uid) (log_line _ _ _) _ w (λ v r. rules.log _ _ _ v)
          λ v r i l. from_db-Obeys _

    cache_answered-Obeys :
        (reply : Outcome x.Bytes) (w : World x)
        → ((b : x.Bytes) (s : PlaybackSession)
            → reply ≡ ok b
            → unmarshal_session x b ≡ some s
            → (s.user_id ≡ uid) × rules.Fine s)
        → Obeys rules (Mine rules uid) (cache_answered x uid reply) w
    unfolding ◌>>=◌ ◌>>◌
    cache_answered-Obeys (ok b) w own =
        entry_found-Obeys (unmarshal_session x b) w λ s e. own b s refl e
    cache_answered-Obeys (err e) w own = elim (Bool-cases (is e redis_nil)) [
      | inl miss ↦ rw miss (from_db-Obeys w)
      | inr down ↦ rw down (
          Obeys-call rules (Mine rules uid) (log_line _ _ _) _ w (λ v r. rules.log _ _ _ v)
            λ v r i l. from_db-Obeys _)
    ]

    pub get-Obeys : (w : World x) → Obeys rules (Mine rules uid) (get x uid) w
    unfolding ◌>>=◌ get
    get-Obeys w =
        let key = cache_key_prefix <> uid in
        Obeys-call rules (Mine rules uid) (redis_get x key) _ w (λ v r. rules.get key v)
          λ v r i l.
            let reply = redis_get x key v in
            cache_answered-Obeys reply.0 reply.1
              λ b s e decoded. rules.get_found uid v b s i e decoded
