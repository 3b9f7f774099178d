-- ===== src/Kafka/Settings.antt =====
-- internal/kafka/producer.go and consumer.go: the settings of the writer and of the reader.
use playback_service.Prelude.{
  ℕ, leb, String, ◌<>◌, Bool, true, Option, none, some, List, [], ℤ, pos, if◌then◌else◌,
}
use playback_service.Apperror.{Fault, foreign}
use playback_service.World.{info}
use playback_service.Platform.{
  Writer, ReaderConfig, Platform, require_all, writer_opened, writer_closed, reader_opened,
}
use playback_service.Process.{
  Env, Hook, Boot, pure, ◌>>=◌, ◌>>◌, do_act, ask, log_line, lift, append, override,
}

pub record ProducerConfig : Type 0 where
  pub brokers : List String
  pub batch_timeout : ℤ
  pub batch_size : ℤ
  pub async : Bool

pub record ConsumerConfig : Type 0 where
  pub brokers : List String
  pub group_id : String
  pub topic : String
  pub min_bytes : ℤ
  pub max_bytes : ℤ
  pub max_wait : ℤ

abbrev pub new_writer : ProducerConfig → Writer
new_writer cfg = record {
  brokers = cfg.brokers;
  required_acks = require_all;
  max_attempts = pos 3;
  allow_auto_topic_creation = true;
  batch_timeout = override cfg.batch_timeout (pos 0);
  batch_size = override cfg.batch_size (pos 0);
  async = cfg.async;
}

abbrev pub reader_config : ConsumerConfig → ReaderConfig
reader_config cfg = record {
  brokers = cfg.brokers;
  group_id = cfg.group_id;
  topic = cfg.topic;
  min_bytes = override cfg.min_bytes (pos 1000);
  max_bytes = override cfg.max_bytes (pos 10000000);
  max_wait = override cfg.max_wait (pos 0);
}

-- The reader is opened where it is made; its connections follow in the background.
unfoldable pub new_consumer : ConsumerConfig → Boot → Unit {0} × Boot
new_consumer cfg = lift (do_act (reader_opened (reader_config cfg)))

-- `HealthCheck` of a consumer, by the errors that its reader has counted; `decimal` is `%d` of fmt.
unfoldable pub health_check : (ℕ → String) → ℕ → Option Fault
health_check decimal errors =
    if leb 1 errors
    then some (foreign ("kafka consumer has " <> (decimal errors <> " errors")))
    else none

module _ (p : Platform) where
  abbrev pub stop_writer : Env → Option Fault × Env
  stop_writer = do
    log_line info "closing kafka producer" []
    failed ← ask p.close_writer
    do_act writer_closed
    pure failed

  abbrev pub writer_hook : Hook
  writer_hook = record { on_start = none; on_stop = some stop_writer }

  unfoldable pub new_producer : ProducerConfig → Boot → Unit {0} × Boot
  new_producer cfg = do lift (do_act (writer_opened (new_writer cfg))); append writer_hook
