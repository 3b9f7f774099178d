-- ===== src/Examples.antt =====
-- Runs of the service over the services in memory, and the theorems at those runs.
pub mod Worlds
mod Sessions
mod Synced
mod Overlap
mod Race
mod Isolation
mod Settled
mod Reads
mod Shutdown
mod Boot
mod Traces
mod Endpoints
mod Codecs
mod Requests
mod Rotation
mod Served
