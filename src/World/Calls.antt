-- ===== src/World/Calls.antt =====
-- The calls of the libraries. Another goroutine may run before each of them takes effect.
use playback_service.Prelude.{ℕ, String, Option, eqb, if◌then◌else◌}
use playback_service.Apperror.{Fault}
use playback_service.Session.Model.{Time, PlaybackSession}
use playback_service.External.{External, Message, Outcome}
use playback_service.World.{M, ◌>>◌}
use playback_service.World.Tasks.{yield}

module _ (x : External) where
  unfoldable pub read_clock : M x Time
  read_clock w = let (t, c) = x.now w.clock in (t, record w { clock = c })

  unfoldable pub redis_get : String → M x (Outcome x.Bytes)
  redis_get key =
      yield x >> λ w. let (reply, c) = x.cache_get key w.cache in (reply, record w { cache = c })

  unfoldable pub redis_set : String → x.Bytes → ℕ → M x (Option Fault)
  redis_set key bytes ttl = yield x >> λ w.
      let (reply, c) = x.cache_set key bytes ttl w.cache in (reply, record w { cache = c })

  unfoldable pub pool_query : String → M x (Outcome PlaybackSession)
  pool_query uid =
      yield x >> λ w. let (reply, d) = x.query_row uid w.db in (reply, record w { db = d })

  unfoldable pub pool_exec : PlaybackSession → M x (Option Fault)
  pool_exec s =
      yield x >> λ w. let (reply, d) = x.exec_upsert s w.db in (reply, record w { db = d })

  unfoldable pub writer_write : String → String → x.Bytes → M x (Option Fault)
  writer_write topic key value = yield x >> λ w.
      let (reply, b) = x.write_message topic key value w.broker in (reply, record w { broker = b })

  -- An assignment to fields of an object that another goroutine may hold.
  unfoldable pub assign : ℕ → (PlaybackSession → PlaybackSession) → M x (Unit {0})
  assign p f w =
      yield x (record w { objects = λ q. if eqb p q then f (w.objects p) else w.objects q })

  unfoldable pub reader_commit : Message x.Bytes → M x (Option Fault)
  reader_commit msg = yield x >> λ w.
      let (reply, b) = x.commit_message msg w.broker in (reply, record w { broker = b })
