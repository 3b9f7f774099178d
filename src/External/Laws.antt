-- ===== src/External/Laws.antt =====
-- What the service relies on of the libraries: the documented behaviour of the calls of External.antt
-- that are answered. Any call may fail at any time.
use playback_service.Prelude.{
  ℕ, ◌<◌, String, ◌≡◌, ◌⊎◌, true, Option, none, some, List, [], ◌∷◌, ◌++◌, ◌==◌, if◌then◌else◌,
}
use playback_service.Apperror.{Fault, no_rows, is}
use playback_service.Json.{Json, is_json}
use playback_service.Session.Model.{Time, PlaybackSession}
use playback_service.Session.Repository.{upserted}
use playback_service.External.{External, ok, err}

-- A text that was written is read back. Nothing is asked of a value that holds
-- a number whose text is no literal.
pub record IsReadable (x : External) : Type 0 where
  pub parse-print : (v : Json) → is_json v ≡ true → x.parse (x.print v) ≡ some v
  pub parse-format :
      (t : Time) (text : String) → x.format_time t ≡ some text → x.parse_time text ≡ some t

-- Redis: `entry` is the live value of a key. A key may expire or be evicted at any call, and a failed
-- SET may have been applied.
pub record IsRedis (x : External) : Type 0 where
  pub entry : String → x.Cache → Option x.Bytes
  pub get_hit :
      (k : String) (c : x.Cache) (b : x.Bytes) → (x.cache_get k c).0 ≡ ok b → entry k c ≡ some b
  pub get_effect :
      (k j : String) (c : x.Cache)
      → (entry j (x.cache_get k c).1 ≡ entry j c) ⊎ (entry j (x.cache_get k c).1 ≡ none)
  pub set_done :
      (k : String) (b : x.Bytes) (ttl : ℕ) (c : x.Cache)
      → 0 < ttl
      → (x.cache_set k b ttl c).0 ≡ none
      → entry k (x.cache_set k b ttl c).1 ≡ some b
  pub set_effect :
      (k j : String) (b : x.Bytes) (ttl : ℕ) (c : x.Cache)
      → (entry j (x.cache_set k b ttl c).1 ≡ entry j c)
        ⊎ (entry j (x.cache_set k b ttl c).1 ≡ none)
        ⊎ ((k ≡ j) × (entry j (x.cache_set k b ttl c).1 ≡ some b))

-- PostgreSQL: `row` is the row of a user, and `stored` what the columns keep of a session, which is
-- all of it but the precision of the time. A failed statement is applied as a whole or not at all.
pub record IsPostgres (x : External) : Type 0 where
  pub row : String → x.Db → Option PlaybackSession
  pub stored : PlaybackSession → PlaybackSession
  pub stored_keeps :
      (s : PlaybackSession) → stored s ≡ record s { updated_at = (stored s).updated_at }
  -- The primary key.
  pub row_keyed : (u : String) (d : x.Db) (s : PlaybackSession) → row u d ≡ some s → s.user_id ≡ u
  pub query_found :
      (u : String) (d : x.Db) (s : PlaybackSession) → (x.query_row u d).0 ≡ ok s → row u d ≡ some s
  pub query_missing :
      (u : String) (d : x.Db) (e : Fault)
      → (x.query_row u d).0 ≡ err e
      → is e no_rows ≡ true
      → row u d ≡ none
  pub query_keeps : (u v : String) (d : x.Db) → row v (x.query_row u d).1 ≡ row v d
  pub exec_done :
      (s : PlaybackSession) (d : x.Db) (v : String)
      → (x.exec_upsert s d).0 ≡ none
      → row v (x.exec_upsert s d).1 ≡ upserted (stored s) (λ u. row u d) v
  pub exec_failed :
      (s : PlaybackSession) (d : x.Db) (e : Fault)
      → (x.exec_upsert s d).0 ≡ some e
      → ((v : String) → row v (x.exec_upsert s d).1 ≡ row v d)
        ⊎ ((v : String) → row v (x.exec_upsert s d).1 ≡ upserted (stored s) (λ u. row u d) v)

-- Kafka: `messages` are the keys and values of a topic. A failed write may have been applied. A write
-- without an error is done, so the writer is synchronous, as it is unless kafka.async is set.
pub record IsKafka (x : External) : Type 0 where
  pub messages : String → x.Broker → List (String × x.Bytes)
  pub write_done :
      (topic t key : String) (value : x.Bytes) (b : x.Broker)
      → (x.write_message topic key value b).0 ≡ none
      → messages t (x.write_message topic key value b).1
        ≡ (if topic == t then messages t b ++ ((key, value) ∷ []) else messages t b)
