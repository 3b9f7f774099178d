-- ===== src/Kafka/Producer.antt =====
-- internal/kafka/producer.go: `Publish`, with a writer whose `Async` is not set. The trace headers of a message are in Kafka.Trace, apart.
use playback_service.Prelude.{String, ◌<>◌, Option, none, some}
use playback_service.Apperror.{Fault, wrapped}
use playback_service.External.{External}
use playback_service.World.{M, pure, ◌>>=◌}
use playback_service.World.Calls.{writer_write}

module _ (x : External) where
  abbrev pub publish_reply : String → Option Fault → Option Fault
  publish_reply topic none = none
  publish_reply topic (some e) = some (wrapped ("kafka publish to " <> topic) e)

  unfoldable pub publish : String → String → x.Bytes → M x (Option Fault)
  publish topic key value = do
    reply ← writer_write x topic key value
    pure (publish_reply topic reply)
