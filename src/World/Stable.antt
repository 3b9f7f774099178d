-- ===== src/World/Stable.antt =====
-- Predicates on the shared state that every primitive step keeps. An operation that is composed of
-- such steps keeps them too, which the components prove once for every such predicate.
use playback_service.Prelude.{ℕ, String, ◌≡◌, List}
use playback_service.Session.Model.{PlaybackSession}
use playback_service.External.{External, Message, ok}
use playback_service.World.{Level, Attr, World, M, ◌>>=◌, ◌>>◌, log_line, allocate, started}
use playback_service.World.Tasks.{cache_ttl, marshal_for_cache, advance, spawn}
use playback_service.World.Calls.{
  read_clock, redis_get, redis_set, pool_query, pool_exec, writer_write, assign, reader_commit,
}

module _ {x : External} (I : World x → Type 0) where
  abbrev pub Keeps : {A : Type 0} → M x A → Type 0
  Keeps m = (w : World x) → I w → I (m w).1

  pub Keeps-bind :
      {A B : Type 0} (m : M x A) (f : A → M x B)
      → Keeps m
      → ((a : A) → Keeps (f a))
      → Keeps (m >>= f)
  Keeps-bind m f first next w i = next (m w).0 (m w).1 (first w i)

  pub Keeps-then :
      {B : Type 0} (m : M x (Unit {0})) (k : M x B) → Keeps m → Keeps k → Keeps (m >> k)
  Keeps-then m k first next w i = next (m w).1 (first w i)

  -- Only what `marshal_for_cache` gives is sent to Redis, and no assignment changes the owner of a
  -- session.
  pub record IsStable : Type 0 where
    pub log :
        (level : Level) (message : String) (attrs : List (String × Attr))
        → Keeps (log_line level message attrs)
    pub allocated : (s : PlaybackSession) → Keeps (allocate s)
    pub clock : Keeps (read_clock x)
    pub get : (key : String) → Keeps (redis_get x key)
    pub set :
        (s : PlaybackSession) (key : String) (b : x.Bytes)
        → marshal_for_cache x s ≡ ok (key, b)
        → Keeps (redis_set x key b cache_ttl)
    pub query : (uid : String) → Keeps (pool_query x uid)
    pub exec : (s : PlaybackSession) → Keeps (pool_exec x s)
    pub write : (topic key : String) (value : x.Bytes) → Keeps (writer_write x topic key value)
    pub commit : (msg : Message x.Bytes) → Keeps (reader_commit x msg)
    pub assigned :
        (p : ℕ) (f : PlaybackSession → PlaybackSession)
        → ((s : PlaybackSession) → (f s).user_id ≡ s.user_id)
        → Keeps (assign x p f)
    pub spawned : (uid : String) (p : ℕ) → Keeps (spawn x (started uid p))
    -- A turn of a goroutine between two requests, and a change of what the scheduler does next.
    pub turn : (i : ℕ) (w : World x) → I w → I (advance x i w)
    pub scheduled : (s : List (List ℕ)) (w : World x) → I w → I (record w { schedule = s })
