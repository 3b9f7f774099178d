-- ===== src/Session/Settled.antt =====
-- A user's session, until the user changes it: it is the row, and all that the cache holds for the user
-- or may yet be given.
pub mod Reads
pub mod Others
pub mod Changes
pub mod Heartbeats
pub mod Apart
pub mod Written
pub mod Paused
pub mod Messages
use mathlib.Core.Path.{subst}
use text.Mathlib.TextLemmas.{append_cancel_left}
use playback_service.Prelude.{
  ℕ, ◌<◌, ◌+◌, String, ◌<>◌, ◌≡◌, ◌⊎◌, refl, sym, ap, ◌∙◌, eqb, Bool-cases, Option, none, some, inl,
  inr, [], ◌∷◌, if◌then◌else◌, arith,
}
use playback_service.Apperror.{is, no_rows, redis_nil}
use playback_service.Session.Model.{PlaybackSession}
use playback_service.External.{External, Outcome, ok, err}
use playback_service.External.Laws.{IsReadable, IsRedis, IsPostgres}
use playback_service.World.{World, allocate, started}
use playback_service.World.Tasks.{yield, advance, cache_key_prefix, marshal_for_cache}
use playback_service.World.Calls.{redis_get, pool_query}
use playback_service.World.Frame.{yield-Undisturbed, spawn-Undisturbed, advance-Undisturbed}
use playback_service.World.Held.{
  Held, TasksHold-map, advance-Held, yield-Held, spawn-Held, redis_get-Held,
}
use playback_service.Session.Repository.{
  unmarshal_session, from_row, get_from_db, warm, fall_back, from_entry, from_cache, get,
}
use playback_service.Session.Repository.Decoded.{marshal_for_cache-key, marshal_for_cache-decoded}

module _ {x : External} (pg : IsPostgres x) (s : PlaybackSession) where
  -- The session, or what the columns keep of it.
  abbrev pub IsVersion : PlaybackSession → Type 0
  IsVersion t = (t ≡ s) ⊎ (t ≡ pg.stored s)

  abbrev pub IsEntry : String → x.Bytes → Type 0
  IsEntry key b =
      (t : PlaybackSession)
      → key ≡ cache_key_prefix <> s.user_id
      → unmarshal_session x b ≡ some t
      → IsVersion t

  -- The pointer of a goroutine, if it is to a session of the user.
  abbrev pub IsPointer : (ℕ → PlaybackSession) → ℕ → ℕ → Type 0
  IsPointer o n p = (p < n) × ((o p).user_id ≡ s.user_id → IsVersion (o p))

  pub made :
      (readable : IsReadable x) (o : ℕ → PlaybackSession) (n p : ℕ) (key : String) (b : x.Bytes)
      → IsPointer o n p
      → marshal_for_cache x (o p) ≡ ok (key, b)
      → IsEntry key b
  made readable o n p key b pointer e t same decoded =
      let own = marshal_for_cache-key x (o p) key b e in
      let read = marshal_for_cache-decoded readable (o p) t key b e decoded in
      subst IsVersion (sym read)
        (pointer.1 (append_cancel_left cache_key_prefix (o p).user_id s.user_id (own ∙ same)))

  pub record Settled (redis : IsRedis x) (w : World x) : Type 0 where
    pub row : pg.row s.user_id w.db ≡ some (pg.stored s)
    pub held : Held redis IsEntry IsPointer w

module _ {x : External} (redis : IsRedis x) (readable : IsReadable x) (pg : IsPostgres x)
    (s : PlaybackSession) where
  pub yield-Settled : (w : World x) → Settled pg s redis w → Settled pg s redis (yield x w).1
  yield-Settled w k = record {
    row = ap (pg.row s.user_id) (yield-Undisturbed w).db ∙ k.row;
    held = yield-Held redis (IsEntry pg s) (IsPointer pg s) (made pg s readable) w k.held;
  }

  pub redis_get-Settled :
      (key : String) (w : World x) → Settled pg s redis w → Settled pg s redis (redis_get x key w).1
  unfolding redis_get
  redis_get-Settled key w k = record {
    row = ap (pg.row s.user_id) (yield-Undisturbed w).db ∙ k.row;
    held = redis_get-Held redis (IsEntry pg s) (IsPointer pg s) (made pg s readable) key w k.held;
  }

  -- A new object is none that a goroutine points at.
  allocate-IsPointer :
      (t : PlaybackSession) (w : World x) (p : ℕ)
      → IsPointer pg s w.objects w.next p
      → IsPointer pg s (allocate t w).1.objects (allocate t w).1.next p
  allocate-IsPointer t w p (below, version) =
      let kept : (allocate t w).1.objects p ≡ w.objects p = ground arith in
      (omega arith, rw kept version)

  pub allocate-Settled :
      (t : PlaybackSession) (w : World x)
      → Settled pg s redis w
      → Settled pg s redis (allocate t w).1
  allocate-Settled t w k = record {
    row = k.row;
    held = (
      k.held.0,
      TasksHold-map redis (IsEntry pg s) (IsPointer pg s) w.objects (allocate t w).1.objects w.next
          (allocate t w).1.next (allocate-IsPointer t w) w.tasks k.held.1,
    );
  }

  -- What `getFromDB` may find: of this user, the row.
  abbrev pub IsFound : Outcome PlaybackSession → Type 0
  IsFound r = (t : PlaybackSession) → r ≡ ok t → t.user_id ≡ s.user_id → IsVersion pg s t

  warm-Settled :
      (uid : String) (r : Outcome PlaybackSession) (w : World x)
      → IsFound r
      → Settled pg s redis w
      → Settled pg s redis (warm x uid (from_row x r w).0 (from_row x r w).1).1
  warm-Settled uid (ok t) w found k =
      let v = (allocate t w).1 in
      let fresh : v.objects w.next ≡ t = ground arith in
      let kept = allocate-Settled t w k in
      let pointer : IsPointer pg s v.objects v.next w.next =
        (omega arith, rw fresh (found t refl)) in
      record {
        row = ap (pg.row s.user_id) (spawn-Undisturbed (started uid w.next) v).db ∙ k.row;
        held =
            spawn-Held redis (IsEntry pg s) (IsPointer pg s) (made pg s readable)
              (started uid w.next) v pointer kept.held;
      }
  warm-Settled uid (err e) w found k = elim (Bool-cases (is e no_rows)) [
    | inl missing ↦ rw missing k
    | inr failed ↦ rw failed k
  ]

  pub query-IsFound :
      (uid : String) (w : World x) → Settled pg s redis w → IsFound (x.query_row uid w.db).0
  query-IsFound uid w k t replied own =
      let found = pg.query_found uid w.db t replied in
      let same : uid ≡ s.user_id = sym (pg.row_keyed uid w.db t found) ∙ own in
      let row : some t ≡ some (pg.stored s) = sym found ∙ ap (λ v. pg.row v w.db) same ∙ k.row in
      inr (cc row)

  fall_back-Settled :
      (uid : String) (w : World x) → Settled pg s redis w → Settled pg s redis (fall_back x uid w).1
  unfolding fall_back get_from_db pool_query
  fall_back-Settled uid w k =
      let y = yield-Settled w k in
      let v = (yield x w).1 in
      let (r, d) = x.query_row uid v.db in
      warm-Settled uid r (record v { db = d }) (query-IsFound uid v y)
        (record { row = pg.query_keeps uid s.user_id v.db ∙ y.row; held = y.held })

  from_entry-Settled :
      (uid : String) (found : Option PlaybackSession) (w : World x)
      → Settled pg s redis w
      → Settled pg s redis (from_entry x uid found w).1
  from_entry-Settled uid (some t) w k = allocate-Settled t w k
  from_entry-Settled uid none w k = fall_back-Settled uid _ (record { row = k.row; held = k.held })

  from_cache-Settled :
      (uid : String) (reply : Outcome x.Bytes) (w : World x)
      → Settled pg s redis w
      → Settled pg s redis (from_cache x uid reply w).1
  from_cache-Settled uid (ok b) w k = from_entry-Settled uid (unmarshal_session x b) w k
  from_cache-Settled uid (err e) w k = elim (Bool-cases (is e redis_nil)) [
    | inl miss ↦ rw miss (fall_back-Settled uid w k)
    | inr down ↦ rw down (fall_back-Settled uid _ (record { row = k.row; held = k.held }))
  ]

  pub get-Settled :
      (uid : String) (w : World x) → Settled pg s redis w → Settled pg s redis (get x uid w).1
  unfolding get
  get-Settled uid w k =
      let (reply, v) = redis_get x (cache_key_prefix <> uid) w in
      from_cache-Settled uid reply v (redis_get-Settled (cache_key_prefix <> uid) w k)

  pub advance-Settled :
      (i : ℕ) (w : World x) → Settled pg s redis w → Settled pg s redis (advance x i w)
  advance-Settled i w k = record {
    row = ap (pg.row s.user_id) (advance-Undisturbed i w).db ∙ k.row;
    held = advance-Held redis (IsEntry pg s) (IsPointer pg s) (made pg s readable) i w k.held;
  }
