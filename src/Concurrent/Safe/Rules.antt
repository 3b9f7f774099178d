-- ===== src/Concurrent/Safe/Rules.antt =====
-- Rules that the calls of every run keep to, given that the run writes for certain users only.
use playback_service.Prelude.{ℕ, ◌<◌, String, ◌<>◌, ◌≡◌, ◌≢◌, ◌∙◌, sym, true, some, List, arith}
use mathlib.Core.Path.{subst}
use playback_service.Apperror.{Fault, Error, http_status, new_not_found, no_rows, is, as_app}
use playback_service.Session.Model.{PlaybackSession}
use playback_service.Session.Repository.{unmarshal_session}
use playback_service.External.{External, Message, Outcome, ok, err}
use playback_service.World.{World, M, Level, Attr, log_line, allocate, started}
use playback_service.World.Tasks.{spawn, advance, cache_ttl, cache_key_prefix, marshal_for_cache}
use playback_service.World.Calls.{
  read_clock, redis_get, redis_set, pool_query, pool_exec, writer_write, assign, reader_commit,
}
use playback_service.Concurrent.{Prog, ret, call, ◌>>=◌}
use playback_service.Concurrent.Safe.{Grows, IsGood, Safe, Safe-ret, Safe-call, Safe-bind}

pub record Rules (x : External) : Type 1 where
  pub Inv : World x → Type 0
  pub Rely : World x → World x → Type 0
  -- The users whose sessions may be written, the sessions that may be read, and the errors that a
  -- user may get.
  pub Writes : String → Type 0
  pub Fine : PlaybackSession → Type 0
  pub Excused : String → Error → Type 0
  pub stays : (w : World x) → Rely w w
  pub joins : (u v w : World x) → Rely u v → Rely v w → Rely u w
  pub grows : {w v : World x} → Rely w v → Grows w v
  pub fine_later :
      {w v : World x} → Rely w v → (p : ℕ) → p < w.next → Fine (w.objects p) → Fine (v.objects p)
  pub fine_own : (s : PlaybackSession) → Writes s.user_id → Fine s
  pub log :
      (level : Level) (message : String) (attrs : List (String × Attr)) (v : World x)
      → IsGood Inv Rely (log_line level message attrs) v
  pub allocated : (s : PlaybackSession) (v : World x) → IsGood Inv Rely (allocate s) v
  pub clock : (v : World x) → IsGood Inv Rely (read_clock x) v
  pub get : (key : String) (v : World x) → IsGood Inv Rely (redis_get x key) v
  pub query : (uid : String) (v : World x) → IsGood Inv Rely (pool_query x uid) v
  pub write :
      (topic key : String) (value : x.Bytes) (v : World x)
      → IsGood Inv Rely (writer_write x topic key value) v
  pub commit : (msg : Message x.Bytes) (v : World x) → IsGood Inv Rely (reader_commit x msg) v
  pub set :
      (s : PlaybackSession) (key : String) (b : x.Bytes) (v : World x)
      → Writes s.user_id
      → marshal_for_cache x s ≡ ok (key, b)
      → IsGood Inv Rely (redis_set x key b cache_ttl) v
  pub exec :
      (s : PlaybackSession) (v : World x) → Writes s.user_id → IsGood Inv Rely (pool_exec x s) v
  pub assigned :
      (p : ℕ) (f : PlaybackSession → PlaybackSession) (v : World x)
      → ((s : PlaybackSession) → (f s).user_id ≡ s.user_id)
      → Writes (v.objects p).user_id
      → IsGood Inv Rely (assign x p f) v
  pub spawned :
      (uid : String) (p : ℕ) (v : World x)
      → p < v.next
      → Fine (v.objects p)
      → IsGood Inv Rely (spawn x (started uid p)) v
  pub turn : (i : ℕ) (w : World x) → Inv w → Inv (advance x i w) × Rely w (advance x i w)
  pub query_found :
      (uid : String) (v : World x) (s : PlaybackSession)
      → Inv v
      → (pool_query x uid v).0 ≡ ok s
      → (s.user_id ≡ uid) × Fine s
  pub get_found :
      (uid : String) (v : World x) (b : x.Bytes) (s : PlaybackSession)
      → Inv v
      → (redis_get x (cache_key_prefix <> uid) v).0 ≡ ok b
      → unmarshal_session x b ≡ some s
      → (s.user_id ≡ uid) × Fine s
  pub query_missing :
      (uid : String) (v : World x) (e : Fault)
      → Inv v
      → (pool_query x uid v).0 ≡ err e
      → is e no_rows ≡ true
      → Excused uid (new_not_found "playback session not found")
  pub excused : (uid : String) (e : Error) → http_status e ≢ 404 → Excused uid e
  pub excused_own : (uid : String) (e : Error) → Writes uid → Excused uid e

module _ {x : External} (rules : Rules x) where
  -- An answer is a pointer to a session of the user that may be read, or an error.
  abbrev pub Mine : String → Outcome ℕ → World x → Type 0
  Mine uid (ok p) w = (p < w.next) × ((w.objects p).user_id ≡ uid) × rules.Fine (w.objects p)
  Mine uid (err e) w = (er : Error) → as_app e ≡ some er → rules.Excused uid er

  pub Mine-later :
      (uid : String) (r : Outcome ℕ) {w v : World x} → rules.Rely w v → Mine uid r w → Mine uid r v
  Mine-later uid (ok p) h (within, own, fine) =
      let g = rules.grows h in
      let a = g.allocated in (omega arith, g.owner p within ∙ own, rules.fine_later h p within fine)
  Mine-later uid (err e) h excused = excused

  -- The run of a user who may write gets no error that matters.
  pub Mine-error : (uid : String) (e : Fault) (w : World x) → rules.Writes uid → Mine uid (err e) w
  Mine-error uid e w may er same = rules.excused_own uid er may

  -- A pointer to a session that may be written.
  abbrev pub Writable : ℕ → World x → Type 0
  Writable p w = (p < w.next) × rules.Writes (w.objects p).user_id

  pub Writable-later : (p : ℕ) {w v : World x} → rules.Rely w v → Writable p w → Writable p v
  Writable-later p h (within, may) =
      let g = rules.grows h in
      let a = g.allocated in (omega arith, subst rules.Writes (sym (g.owner p within)) may)

  pub Mine-Writable :
      (uid : String) (p : ℕ) (w : World x) → rules.Writes uid → Mine uid (ok p) w → Writable p w
  Mine-Writable uid p w may (within, own, fine) = (within, subst rules.Writes (sym own) may)

  -- The run keeps to the rules, and `Q` holds of its result.
  abbrev pub Obeys : {A : Type 0} → (A → World x → Type 0) → Prog x A → World x → Type 0
  Obeys Q p w = Safe rules.Inv rules.Rely Q p w

  abbrev pub Any : {A : Type 0} → A → World x → Type 0
  Any a w = Unit

  pub Obeys-ret :
      {A : Type 0} (Q : A → World x → Type 0) (a : A) (w : World x) → Q a w → Obeys Q (ret a) w
  Obeys-ret Q a w q = Safe-ret rules.Inv rules.Rely Q a w q

  pub Obeys-call :
      {A B : Type 0} (Q : A → World x → Type 0) (m : M x B) (k : B → Prog x A) (w : World x)
      → ((v : World x) → rules.Rely w v → IsGood rules.Inv rules.Rely m v)
      → ((v : World x)
          → rules.Rely w v
          → rules.Inv v
          → rules.Rely w (m v).1
          → Obeys Q (k (m v).0) (m v).1)
      → Obeys Q (call m k) w
  Obeys-call Q m k w good next =
      Safe-call rules.Inv rules.Rely Q m k w good
        λ v r i. next v r i (rules.joins w v (m v).1 r (good v r i).1)

  pub Obeys-bind :
      {A B : Type 0} (Q : A → World x → Type 0) (T : B → World x → Type 0) (p : Prog x A)
      (f : A → Prog x B) (w : World x)
      → Obeys Q p w
      → ((a : A) (v : World x) → rules.Rely w v → Q a v → Obeys T (f a) v)
      → Obeys T (p >>= f) w
  Obeys-bind Q T p f w = Safe-bind rules.Inv rules.Rely rules.stays rules.joins Q T p f w
