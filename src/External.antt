-- ===== src/External.antt =====
-- What the service calls and does not implement: Redis, PostgreSQL, Kafka, the clock, and the text
-- forms of JSON and of times. A call gets the state of the service that answers it and returns its
-- answer with the next state, so the state may decide that a call fails.
pub mod Laws
pub mod Memory
use playback_service.Prelude.{ℕ, String, Bool, Option, none, some}
use playback_service.Apperror.{Fault}
use playback_service.Json.{Json}
use playback_service.Session.Model.{Time, PlaybackSession}

-- A pair `(value, error)` of which one is nil.
pub data Outcome {ℓ} (A : Type ℓ) : Type ℓ where
  ok : A → Outcome A
  err : Fault → Outcome A

-- A message as the Kafka reader gives it. Its headers, which carry the trace, are left out.
pub record Message (Bytes : Type 0) : Type 0 where
  pub topic : String
  pub partition : ℕ
  pub offset : ℕ
  pub key : String
  pub value : Bytes

pub record External : Type 1 where
  -- `[]byte`, with the JSON value that it is the text of.
  pub Bytes : Type 0
  pub parse : Bytes → Option Json
  pub print : Json → Bytes
  pub is_empty : Bytes → Bool
  -- The error of a failing `json.Unmarshal`, and of a failing `json.Marshal`.
  pub unmarshal_error : Bytes → Fault
  pub marshal_error : Fault
  -- The RFC 3339 text of an instant.
  pub format_time : Time → Option String
  pub parse_time : String → Option Time
  -- time.Now().UTC()
  pub Clock : Type 0
  pub now : Clock → Time × Clock
  -- The Redis client: `Get(key).Bytes()` and `Set(key, value, ttl in seconds)`.
  pub Cache : Type 0
  pub cache_get : String → Cache → Outcome Bytes × Cache
  pub cache_set : String → Bytes → ℕ → Cache → Option Fault × Cache
  -- The pool: the SELECT of `getFromDB`, and the INSERT ... ON CONFLICT of `Upsert`.
  pub Db : Type 0
  pub query_row : String → Db → Outcome PlaybackSession × Db
  pub exec_upsert : PlaybackSession → Db → Option Fault × Db
  -- The Kafka writer, a message with its topic, key and value, and the reader's commit.
  pub Broker : Type 0
  pub write_message : String → String → Bytes → Broker → Option Fault × Broker
  pub commit_message : Message Bytes → Broker → Option Fault × Broker

-- json.Unmarshal into a fresh struct, which `decode` fills from the value of the text.
abbrev pub unmarshal {ℓ} : {A : Type ℓ} (x : External) → (Json → Option A) → x.Bytes → Option A
unmarshal x decode bytes = elim (x.parse bytes) [ none ↦ none | some v ↦ decode v ]
