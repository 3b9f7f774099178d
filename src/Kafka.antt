-- ===== src/Kafka.antt =====
-- internal/kafka: the envelope of an event, the producer and the consumer's loop.
pub mod Event
pub mod Settings
pub mod Trace
pub mod Producer
pub mod Consumer
