-- ===== src/Session.antt =====
-- internal/session: the model, the repository, the service, the handler and the consumer.
pub mod Model
pub mod Roundtrip
pub mod Repository
pub mod Service
pub mod Consumer
pub mod Handler
pub mod Requests
pub mod Stable
pub mod Isolation
pub mod Settled
pub mod System
pub mod Lifecycle
