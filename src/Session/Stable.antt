-- ===== src/Session/Stable.antt =====
-- Every operation of the session components keeps the predicates that every primitive step keeps.
pub mod Repository
pub mod Service
pub mod Consumer
pub mod Handler
