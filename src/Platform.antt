-- ===== src/Platform.antt =====
-- The libraries that the service is built on at start-up: what the source sets of their settings, the
-- calls that change something, and their answers, which may depend on all that was done before.
use playback_service.Prelude.{ℕ, String, Bool, Option, List, ℤ}
use playback_service.Apperror.{Fault}
use playback_service.External.{Outcome}

-- pgxpool.Config, with durations in nanoseconds as everywhere.
pub record PoolConfig : Type 0 where
  pub host : String
  pub max_conns : ℤ
  pub min_conns : ℤ
  pub max_conn_lifetime : ℤ
  pub max_conn_idle_time : ℤ

-- redis.Options; a pool size of zero is the library's own.
pub record RedisOptions : Type 0 where
  pub addr : String
  pub password : String
  pub db : ℤ
  pub pool_size : ℤ

pub data RequiredAcks : Type 0 where
  require_none require_one require_all : RequiredAcks

-- kafka.Writer; a zero is the library's own value.
pub record Writer : Type 0 where
  pub brokers : List String
  pub required_acks : RequiredAcks
  pub max_attempts : ℤ
  pub allow_auto_topic_creation : Bool
  pub batch_timeout : ℤ
  pub batch_size : ℤ
  pub async : Bool

-- kafka.ReaderConfig
pub record ReaderConfig : Type 0 where
  pub brokers : List String
  pub group_id : String
  pub topic : String
  pub min_bytes : ℤ
  pub max_bytes : ℤ
  pub max_wait : ℤ

-- fasthttp.Server, without its handler.
pub record HttpServer : Type 0 where
  pub name : String
  pub read_timeout : ℤ
  pub write_timeout : ℤ
  pub idle_timeout : ℤ
  pub max_request_body_size : ℕ

-- What the process did to what outlives a call, in order.
pub data Act : Type 0 where
  pool_opened : PoolConfig → Act
  pool_closed : Act
  client_opened : RedisOptions → Act
  client_closed : Act
  writer_opened : Writer → Act
  writer_closed : Act
  reader_opened : ReaderConfig → Act
  reader_closed : Act
  consumer_started consumer_canceled : Act
  migrate_opened migrate_run migrate_closed : Act
  provider_set : String → Act
  provider_closed : Act
  listening : String → Act
  serving : HttpServer → Act
  ready_set : Bool → Act
  server_shutdown : Act

-- How `srv.Shutdown` and the context of the hook race: the first that is done.
pub data Race : Type 0 where
  finished : Option Fault → Race
  interrupted : Fault → Race

-- A `none` is a nil error.
pub record Platform : Type 0 where
  pub parse_dsn : String → Outcome PoolConfig
  pub new_pool : PoolConfig → List Act → Option Fault
  pub ping_pool : List Act → Option Fault
  pub instrument_tracing : List Act → Option Fault
  pub instrument_metrics : List Act → Option Fault
  pub ping_client : List Act → Option Fault
  pub close_client : List Act → Option Fault
  pub close_writer : List Act → Option Fault
  pub close_reader : List Act → Option Fault
  pub new_migrate : (source dsn : String) → List Act → Option Fault
  pub migrate_up : List Act → Option Fault
  pub close_migrate : List Act → Option Fault × Option Fault
  pub migrate_version : List Act → ℕ × Bool
  pub merge_resource : String → Option Fault
  pub new_grpc_client : String → Option Fault
  pub new_exporter : String → Option Fault
  pub close_provider : List Act → Option Fault
  pub listen : String → List Act → Option Fault
  pub shutdown : List Act → Race
